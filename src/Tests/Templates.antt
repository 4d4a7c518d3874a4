-- ===== src/Tests/Templates.antt =====
-- The template cache of src/server.rs at concrete inputs.
use postgres_test_harness.Base.{ℕ, ◌≡◌, refl, Bool, true, [], ◌∷◌, arith, some}
use postgres_test_harness.Fingerprint.Hex.{TemplateFingerprint}
use postgres_test_harness.Server.Templates.{
  ready, TemplateCache, empty_cache, initialize, wait, template_cache_action, publish, await_flight,
  begin_flight,
}
use postgres_test_harness.Server.Flights.{
  Initializer, Reach, start, next, asks, holders, holds_flight,
}
use postgres_test_harness.Server.Flights.Single.{publish_installs, waiter_is_served}

abbrev print : TemplateFingerprint
print = record { bytes = 1 ∷ 2 ∷ [] }

abbrev all_live : ℕ → Bool
all_live t = true

-- Two callers ask for a template: the first initializes it, and the second waits.
abbrev asked : TemplateCache
asked = (template_cache_action all_live print empty_cache).1

abbrev first_flight : Initializer
first_flight = record { fingerprint = print; flight = 0 }

two_asked : Reach asked (first_flight ∷ [])
unfolding template_cache_action begin_flight
two_asked =
    next (next start (asks all_live print asked (initialize 0) refl))
      (asks all_live print asked (wait 0) refl)

publish_installs_example :
    let d = publish print 0 8 asked in
    (holders print (first_flight ∷ []) ≡ 1)
    × (d.entries print ≡ some (ready 8))
    × (await_flight 0 d ≡ some (some 8))
publish_installs_example = publish_installs two_asked 0 8 first_flight [] refl

waiter_is_served_example : holds_flight 0 (first_flight ∷ []) ≡ true
unfolding await_flight template_cache_action begin_flight
waiter_is_served_example = waiter_is_served two_asked 0 (omega arith) refl
