-- ===== src/Theme.antt =====
-- pkg/theme: the pages that a theme renders (render.go, list.go, types.go). A template that is loaded is
-- what its execution answers, and none is an execution that fails. The texts of durations, which are
-- computed in floating point, are parameters.
pub mod Executed
use sablier.Text.{concat}
use sablier.Instance.{InstanceStatus}
use sablier.Prelude.{
  [], some, none, ℕ, String, Map, List, Bool, Option, if◌then◌else◌, lookup, has_key,
}

-- What a page shows of an instance.
pub record ThemeInstance : Type 0 where
  pub name : String
  pub status : InstanceStatus
  pub error : Option String
  pub current_replicas : ℕ
  pub desired_replicas : ℕ

pub record Options : Type 0 where
  pub display_name : String
  pub show_details : Bool
  pub instance_states : List ThemeInstance
  pub session_duration : ℕ
  pub refresh_frequency : ℕ

pub record TemplateData : Type 0 where
  pub display_name : String
  pub instance_states : List ThemeInstance
  pub session_duration : String
  pub refresh_frequency : String
  pub version : String

-- durations.Humanize, the refresh interval in whole seconds, and the version of the program
pub record Texts : Type 0 where
  pub humanize : ℕ → String
  pub whole_seconds : ℕ → String
  pub version : String

-- The templates by their names.
abbrev pub Themes : Type 0
Themes = Map (TemplateData → Option String)

pub data Rendered : Type 0 where
  html : String → Rendered
  theme_not_found : Rendered
  render_failed : Rendered

unfoldable pub exists : Themes → String → Bool
exists themes name = has_key (concat name ".html") themes

pub shown_instances : Options → List ThemeInstance
shown_instances opts = if opts.show_details then opts.instance_states else []

pub render : Texts → Themes → String → Options → Rendered
unfolding shown_instances
render texts themes name opts = elim (lookup (concat name ".html") themes) [
  | none ↦ theme_not_found
  | some execute ↦
      elim (execute (record {
        display_name = opts.display_name;
        instance_states = shown_instances opts;
        session_duration = texts.humanize opts.session_duration;
        refresh_frequency = texts.whole_seconds opts.refresh_frequency;
        version = texts.version;
      })) [ none ↦ render_failed | some page ↦ html page ]
]
