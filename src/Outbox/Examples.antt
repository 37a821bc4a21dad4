-- ===== src/Outbox/Examples.antt =====
-- Two events and two relays.
use vp_parts.Base.{
  ℕ, ◌+◌, ◌≤◌, ◌≡◌, refl, Bool, false, Option, none, some, List, [], ◌∷◌, map, arith, ◌==◌,
  if◌then◌else◌, length, contains,
}
use vp_parts.Outbox.{
  OutboxEvent, ClaimedEvent, ClaimOptions, append, claim_due, claim_row, due_ids, is_due, held_by,
  to_claimed_event, record_handler_done,
}
use vp_parts.Outbox.Claims.{event_id_of, claim_due_bounds, claim_due_exclusive}
use vp_parts.Outbox.Leases.{Refused, stale_lease-Refused}
use vp_parts.Outbox.Steps.{here, next, appends, claims, IsSound, Reach-IsSound}
use vp_parts.Outbox.Relay.{Registry, deliver, retry_delay_ms, longest_retry_ms}
use vp_parts.Outbox.Relay.Backoff.{retry_delay_ms_backoff}
use vp_parts.Outbox.Relay.Delivery.{
  calm, settled, attempt_failures, attempt_successes, deliver-settles, deliver_skips_completed,
}

abbrev a_row : ℕ → OutboxEvent
a_row id = record {
  id = id;
  event_type = 1;
  payload = 100;
  created_at = 10;
  available_at = 10;
  attempts = 0;
  claim_token = none;
  completed_handlers = [];
  last_error = [];
}

abbrev rows : List OutboxEvent
rows = a_row 1 ∷ a_row 2 ∷ []

abbrev options : ℕ → ClaimOptions
options now = record { now = now; limit = 1; lease_ms = 300000; max_attempts = 10 }

abbrev unlocked : ℕ → Bool
unlocked id = false

abbrev tokens : ℕ → ℕ
tokens id = 50 + id

claim_due_bounds_example : length (claim_due (options 20) unlocked tokens rows).0 ≤ 1
claim_due_bounds_example = (claim_due_bounds (options 20) unlocked tokens rows (refl, (refl, tt))).1

claim_due_exclusive_example :
    contains
      (map event_id_of
        (claim_due (options 30) unlocked tokens (claim_due (options 20) unlocked tokens rows).1).0)
      1
    ≡ false
unfolding claim_due due_ids is_due claim_row to_claimed_event
claim_due_exclusive_example =
    claim_due_exclusive (options 20) (options 30) unlocked unlocked tokens tokens rows 1
      (omega arith) refl

stale_lease-Refused_example : Refused (claim_due (options 20) unlocked tokens rows).1 (
    record_handler_done
      (record { event_id = 1; claim_token = some 7 })
      3
      (claim_due (options 20) unlocked tokens rows).1)
unfolding claim_due due_ids is_due claim_row to_claimed_event
stale_lease-Refused_example =
    (stale_lease-Refused (options 20) unlocked tokens rows
      (record { event_id = 1; claim_token = some 7 }) 3 40 [] refl (λ e. cc)).0

Reach-IsSound_example :
    IsSound
      (claim_due
        (options 20)
        unlocked
        tokens
        (append (record { event_type = 1; payload = 100 }) 1 10 [])).1
Reach-IsSound_example = Reach-IsSound (
    next (next here (appends (record { event_type = 1; payload = 100 }) 1 10 refl))
      (claims (options 20) unlocked tokens refl))

abbrev a_claim : ClaimedEvent
a_claim = record {
  message = record { event_id = 1; event_type = 1; payload = 100; occurred_at = 10; attempts = 1 };
  claim_token = some 51;
  completed_handlers = 8 ∷ [];
}

abbrev held_rows : List OutboxEvent
held_rows =
    record (a_row 1) { claim_token = some 51; attempts = 1; completed_handlers = 8 ∷ [] }
    ∷ a_row 2
    ∷ []

abbrev registry : Registry
registry = (1, 8) ∷ (1, 9) ∷ []

-- The handler 9 throws.
abbrev outcome : ℕ → Option ℕ
outcome name = if name == 9 then some 77 else none

deliver-settles_example :
    deliver (calm outcome) registry 20 a_claim held_rows
    ≡ settled a_claim 20
        (attempt_failures outcome registry a_claim)
        (attempt_successes outcome registry a_claim)
        held_rows
unfolding held_by
deliver-settles_example = deliver-settles outcome registry 20 a_claim held_rows (omega arith)

-- The handler 8 is done: that it would fail now changes nothing.
deliver_skips_completed_example :
    deliver (calm outcome) registry 20 a_claim held_rows
    ≡ deliver
        (calm (λ name. if name == 8 then some 66 else outcome name))
        registry
        20
        a_claim
        held_rows
deliver_skips_completed_example =
    deliver_skips_completed (calm outcome)
      (calm (λ name. if name == 8 then some 66 else outcome name)) registry 20 a_claim held_rows
      (λ name h message events. ground (arith, h))

retry_delay_ms_backoff_example : retry_delay_ms 3 ≤ longest_retry_ms
retry_delay_ms_backoff_example = (retry_delay_ms_backoff 3 (omega arith)).1
