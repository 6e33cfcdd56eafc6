-- ===== src/Theme/Executed.antt =====
-- What a page is the output of.
use sablier.Text.{concat}
use sablier.Theme.{
  Rendered, Texts, render, Options, shown_instances, TemplateData, Themes, html, theme_not_found,
  render_failed,
}
use sablier.Prelude.{
  [], some, inl, inr, arith, String, if◌then◌else◌, ◌≡◌, Option, lookup, Option-cases, ap, ◌∙◌,
}

abbrev body_of : Rendered → String
body_of (html body) = body
body_of theme_not_found = ""
body_of render_failed = ""

-- What a template is given: the instances only where details are asked for.
abbrev pub data_of : Texts → Options → TemplateData
data_of texts opts = record {
  display_name = opts.display_name;
  instance_states = if opts.show_details then opts.instance_states else [];
  session_duration = texts.humanize opts.session_duration;
  refresh_frequency = texts.whole_seconds opts.refresh_frequency;
  version = texts.version;
}

-- A page is what the template of the theme puts out for these data.
pub render-data_of :
    (texts : Texts) (themes : Themes) (name : String) (opts : Options) (body : String)
    → render texts themes name opts ≡ html body
    → (execute : TemplateData → Option String) × (lookup (concat name ".html") themes
        ≡ some execute)
      × (execute (data_of texts opts) ≡ some body)
unfolding render shown_instances
render-data_of texts themes name opts body e =
    elim (Option-cases (lookup (concat name ".html") themes)) [
      | inl unknown ↦ absurd (ground (arith, rw (render, unknown) at e))
      | inr (execute, found) ↦ elim (Option-cases (execute (data_of texts opts))) [
        | inl broken ↦ absurd (ground (arith, rw (render, found, broken) at e))
        | inr (made, put_out) ↦
            let same : made ≡ body = ap body_of (rw (render, found, put_out) at e) in
            (execute, found, put_out ∙ ap some same)
      ]
    ]
