-- ===== src/Outbox/Relay.antt =====
-- The relay: apps/api/src/events/outbox.relay.ts. A handler is code elsewhere, so it is an argument: given
-- its name, the message and the table when it is called, it answers the error that it threw, if
-- any, and the table when it ends, which other relays may have changed in the meantime. The clock
-- that a retry reads is an argument too. The log lines and a database that fails are left out.
pub mod Delivery
pub mod Backoff
use vp_parts.Base.{
  ℕ, ◌+◌, ◌-◌, ◌*◌, ◌^◌, min, Bool, true, false, not, Option, none, some, List, [], ◌∷◌, ◌++◌, map,
  ◌==◌, if◌then◌else◌, contains, keep_if,
}
use vp_parts.Outbox.{
  OutboxEvent, OutboxMessage, ClaimedEvent, ClaimOptions, Lease, Failure, no_handler,
  handler_failed, claim_due, record_handler_done, delete_delivered, schedule_retry,
}

abbrev pub batch_size : ℕ
batch_size = 10

abbrev pub lease_ms : ℕ
lease_ms = 5 * 60000

abbrev pub max_attempts : ℕ
max_attempts = 10

abbrev pub first_retry_ms : ℕ
first_retry_ms = 30000

abbrev pub longest_retry_ms : ℕ
longest_retry_ms = 60 * 60000

-- A claimed event has been attempted at least once, so `attempts - 1` does not stop at 0.
pub retry_delay_ms : ℕ → ℕ
retry_delay_ms attempts = min (first_retry_ms * 2 ^ (attempts - 1)) longest_retry_ms

abbrev pub Handle : Type 0
Handle = ℕ → OutboxMessage → List OutboxEvent → Option ℕ × List OutboxEvent

-- `handlersByType`: each registration, oldest first.
abbrev pub Registry : Type 0
Registry = List (ℕ × ℕ)

pub register : ℕ → ℕ → Registry → Registry
register event_type name registry = registry ++ (event_type, name) ∷ []

pub handlers_of : Registry → ℕ → List ℕ
handlers_of registry event_type =
    map (λ entry. entry.1) (keep_if (λ entry. entry.0 == event_type) registry)

abbrev pub lease_of : ClaimedEvent → Lease
lease_of claimed = record { event_id = claimed.message.event_id; claim_token = claimed.claim_token }

-- How a delivery step ends: with the failures so far, or because `LeaseLostError` was thrown.
pub data Progress : Type 0 where
  ran : List Failure → Progress
  lease_lost : Progress

abbrev pub require_lease : Bool × List OutboxEvent → Progress × List OutboxEvent
require_lease (held, events) = (if held then ran [] else lease_lost, events)

abbrev pub pending_of : List ℕ → List ℕ → List ℕ
pending_of completed = keep_if (λ name. not (contains completed name))

pub settle : ℕ → ClaimedEvent → List Failure → List OutboxEvent → Progress × List OutboxEvent
settle now claimed failures events = elim failures [
  | [] ↦ require_lease (delete_delivered (lease_of claimed) events)
  | f ∷ fs ↦ require_lease (
      schedule_retry (lease_of claimed) (now + retry_delay_ms claimed.message.attempts) (f ∷ fs)
        events)
]

module _ (handle : Handle) where
  -- The loop over the pending handlers.
  pub run_handlers :
      Lease → OutboxMessage → List ℕ → List Failure → List OutboxEvent → Progress × List OutboxEvent
  run_handlers lease message [] failures events = (ran failures, events)
  run_handlers lease message (name ∷ names) failures events =
      let (thrown, during) = handle name message events in
      elim thrown [
        | some error ↦
            run_handlers lease message names (failures ++ handler_failed name error ∷ []) during
        | none ↦
            let (held, after) = record_handler_done lease name during in
            elim held [
              | true ↦ run_handlers lease message names failures after
              | false ↦ (lease_lost, after)
            ]
      ]

  pub run_pending_handlers :
      Registry → ClaimedEvent → List OutboxEvent → Progress × List OutboxEvent
  unfolding run_handlers handlers_of
  run_pending_handlers registry claimed events =
      elim (handlers_of registry claimed.message.event_type) [
        | [] ↦ (ran (no_handler claimed.message.event_type ∷ []), events)
        | name ∷ names ↦
            run_handlers (lease_of claimed) claimed.message
              (pending_of claimed.completed_handlers (name ∷ names)) [] events
      ]

  -- `deliver`: a lost lease is logged, and ends the delivery as it stands.
  pub deliver : Registry → ℕ → ClaimedEvent → List OutboxEvent → List OutboxEvent
  unfolding run_pending_handlers settle
  deliver registry now claimed events =
      let (progress, after) = run_pending_handlers registry claimed events in
      elim progress [ lease_lost ↦ after | ran failures ↦ (settle now claimed failures after).1 ]

  deliver_all : Registry → ℕ → List ClaimedEvent → List OutboxEvent → List OutboxEvent
  deliver_all registry now [] table = table
  deliver_all registry now (c ∷ cs) table =
      deliver_all registry now cs (deliver registry now c table)

  -- `relayDue`: nothing while an earlier call of it is still running.
  pub relay_due : Bool → Registry → ℕ → (ℕ → Bool) → (ℕ → ℕ) → List OutboxEvent → List OutboxEvent
  unfolding deliver_all
  relay_due is_relaying registry now locked tokens events =
      let (claimed, table) =
        claim_due
          (record {
            now = now;
            limit = batch_size;
            lease_ms = lease_ms;
            max_attempts = max_attempts;
          })
          locked tokens events in
      if is_relaying then events else deliver_all registry now claimed table
