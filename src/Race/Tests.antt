-- ===== src/Race/Tests.antt =====
-- Two requests that race for one instance, and a third that finds the error of the start.
use sablier.Race.Single.{race_steps-single}
use sablier.Race.{
  Race, Start, race_steps, RaceStep, no_starts, calling, check_start, checks, registers, returns,
  closes, cleans, start_error, go_on,
}
use sablier.Instance.{InstanceInfo, no_instance}
use sablier.Prelude.{
  [], ◌∷◌, some, true, false, refl, List, ◌≡◌, insert, lookup, delete, length, get_elem?, ℕ,
}

abbrev info : InstanceInfo
info = record no_instance { name = "web" }

abbrev two_requests : List RaceStep
two_requests =
    checks "web"
    ∷ checks "web"
    ∷ registers "web" info
    ∷ registers "web" info
    ∷ checks "db"
    ∷ registers "db" info
    ∷ []

abbrev raced : Race
raced = race_steps two_requests no_starts

abbrev web_start : Start
web_start = record { name = "web"; phase = calling; has_error = false; info = info }

one_each : length raced.starts ≡ 2
unfolding race_steps insert lookup delete
one_each = refl

first_of_web : get_elem? raced.starts 0 ≡ some web_start
unfolding race_steps insert lookup delete
first_of_web = refl

error_is_told :
    (check_start "web" (race_steps (returns 0 false ∷ closes 0 ∷ []) raced)).0 ≡ start_error
unfolding race_steps check_start insert lookup delete
error_is_told = refl

success_is_cleaned :
    (check_start "web" (race_steps (returns 0 true ∷ cleans 0 ∷ []) raced)).0 ≡ go_on
unfolding race_steps check_start insert lookup delete
success_is_cleaned = refl

race_steps-single_example :
    (lookup "web" raced.entries ≡ some 0)
    × ((j : ℕ) (other : Start)
        → get_elem? raced.starts j ≡ some other
        → other.phase ≡ calling
        → other.name ≡ "web"
        → j ≡ 0)
race_steps-single_example = race_steps-single two_requests 0 web_start first_of_web refl
