-- ===== src/Metrics/Tests.antt =====
-- An instance that waits, becomes ready twice and expires.
use sablier.Metrics.Active.{active_total, active_still, record_calls-active_bounds}
use sablier.Metrics.{
  record_calls, collect_groups, Recording, new_prom_recorder, active, ready_wait_begin,
  ready_wait_end, inactive, active_for, ready_took,
}
use sablier.Prelude.{
  [], ◌∷◌, true, false, refl, arith, ℕ, List, lookup, insert, ◌+◌, delete, has_key, ◌≡◌, ◌≤◌,
}

abbrev calls : List (Recording × ℕ)
calls =
    (active "web", 1)
    ∷ (ready_wait_begin "web", 1)
    ∷ (ready_wait_begin "web", 3)
    ∷ (ready_wait_end "web", 4)
    ∷ (ready_wait_end "web", 5)
    ∷ (inactive "web", 9)
    ∷ []

recorded : (record_calls calls new_prom_recorder).log ≡ active_for "web" 5 ∷ ready_took "web" 3 ∷ []
unfolding record_calls new_prom_recorder lookup insert delete has_key
recorded = refl

locked :
    collect_groups
      (("apps", "web" ∷ "db" ∷ []) ∷ ("idle", []) ∷ [])
      (record_calls ((active "web", 1) ∷ []) new_prom_recorder)
    ≡ ("apps", (true, 1)) ∷ ("idle", (false, 0)) ∷ []
unfolding collect_groups record_calls new_prom_recorder insert has_key
locked = refl

record_calls-active_bounds_example :
    active_total "web" (record_calls calls new_prom_recorder).log
      + active_still "web" 12 (record_calls calls new_prom_recorder)
    ≤ 12
record_calls-active_bounds_example = record_calls-active_bounds "web" 0 12 calls (ground arith)
