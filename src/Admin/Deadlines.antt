-- ===== src/Admin/Deadlines.antt =====
-- src/admin.rs: durations and deadlines, in nanoseconds.
use postgres_test_harness.Base.{
  ℕ, ◌+◌, ◌-◌, ◌/◌, ◌≡◌, min, Bool, not, leb, ltb, ◌==◌, if◌then◌else◌, arith, Option, none, some,
  Error, timeout_out_of_range, admin_session_checkout_timeout, Result, ok, err,
}
use postgres_test_harness.Metadata.Decimal.{u64_max}

-- `Duration::MAX`.
abbrev pub duration_max : ℕ
duration_max = 18446744073709551615999999999

abbrev pub connect_timeout : ℕ
connect_timeout = 10000000000

abbrev pub client_operation_timeout_grace : ℕ
client_operation_timeout_grace = 1000000000

abbrev pub lock_timeout_limit : ℕ
lock_timeout_limit = 10000000000

-- `saturating_add`.
unfoldable pub client_operation_timeout : ℕ → ℕ
client_operation_timeout operation_timeout =
    min (operation_timeout + client_operation_timeout_grace) duration_max

unfoldable pub duration_millis : ℕ → Result ℕ
duration_millis duration =
    let millis = duration / 1000000 in
    if leb millis u64_max then ok millis else err (timeout_out_of_range duration)

pub record Deadline : Type 0 where
  pub started : ℕ
  pub timeout : ℕ

-- `Instant::elapsed`, at `now`: zero before the start.
abbrev pub elapsed : ℕ → Deadline → ℕ
elapsed now d = now - d.started

abbrev pub checked_sub : ℕ → ℕ → Option ℕ
checked_sub a b = if leb b a then some (a - b) else none

abbrev pub unless_zero : Option ℕ → Option ℕ
unless_zero none = none
unless_zero (some n) = if n == 0 then none else some n

unfoldable pub remaining : ℕ → Deadline → Option ℕ
remaining now d = unless_zero (checked_sub d.timeout (elapsed now d))

unfoldable pub is_elapsed : ℕ → Deadline → Bool
is_elapsed now d = leb d.timeout (elapsed now d)

unfoldable pub checkout_timeout : Deadline → Error
checkout_timeout d = admin_session_checkout_timeout d.timeout

abbrev pub or_timeout : Deadline → Option ℕ → Result ℕ
or_timeout d none = err (admin_session_checkout_timeout d.timeout)
or_timeout d (some n) = ok n

unfoldable pub checkout_remaining : ℕ → Deadline → Result ℕ
unfolding remaining
checkout_remaining now d = or_timeout d (remaining now d)

-- At every instant, the time that a checkout has left is its error exactly when its deadline has
-- elapsed, and otherwise what the timeout exceeds the time that has passed by; and the deadline has
-- elapsed exactly when that is nothing.
pub deadline_agrees :
    (now : ℕ) (d : Deadline)
    → (checkout_remaining now d
        ≡ (if is_elapsed now d then err (checkout_timeout d) else ok (d.timeout - elapsed now d)))
      × (is_elapsed now d ≡ not (ltb 0 (d.timeout - elapsed now d)))
unfolding is_elapsed checkout_remaining remaining checkout_timeout
deadline_agrees now d = (ground arith, ground arith)
