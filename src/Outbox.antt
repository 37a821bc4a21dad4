-- ===== src/Outbox.antt =====
-- The transactional outbox: apps/api/src/events/outbox.repository.ts.
-- The table is the list of its rows. Identifiers, event types, handler names and claim tokens are
-- only compared, so they are numbers, and so is an instant (milliseconds). The identifier and the
-- claim tokens that the database draws (`gen_random_uuid`) are arguments, as is the set of rows
-- that other transactions hold locked and `SKIP LOCKED` passes over.
pub mod Claims
pub mod Leases
pub mod Relay
pub mod Steps
mod Examples
use vp_parts.Base.{
  ℕ, ◌+◌, Bool, true, false, not, ◌&&◌, Option, none, some, List, [], ◌∷◌, ◌++◌, map, ltb, leb,
  ◌==◌, is_some_of, contains, take, keep_if, update_where, count_where, sort_by,
}

-- Why a delivery attempt failed: no handler is registered for the type, or a handler threw.
pub data Failure : Type 0 where
  no_handler : ℕ → Failure
  handler_failed : ℕ → ℕ → Failure

-- A row of the table. The payload is the order that the event names.
pub record OutboxEvent : Type 0 where
  pub id : ℕ
  pub event_type : ℕ
  pub payload : ℕ
  pub created_at : ℕ
  pub available_at : ℕ
  pub attempts : ℕ
  pub claim_token : Option ℕ
  pub completed_handlers : List ℕ
  pub last_error : List Failure

pub record NewOutboxEvent : Type 0 where
  pub event_type : ℕ
  pub payload : ℕ

pub record OutboxMessage : Type 0 where
  pub event_id : ℕ
  pub event_type : ℕ
  pub payload : ℕ
  pub occurred_at : ℕ
  pub attempts : ℕ

pub record ClaimedEvent : Type 0 where
  pub message : OutboxMessage
  pub claim_token : Option ℕ
  pub completed_handlers : List ℕ

pub record Lease : Type 0 where
  pub event_id : ℕ
  pub claim_token : Option ℕ

pub record ClaimOptions : Type 0 where
  pub now : ℕ
  pub limit : ℕ
  pub lease_ms : ℕ
  pub max_attempts : ℕ

-- The row starts with the columns' defaults: due at once, never attempted, unclaimed.
unfoldable pub append : NewOutboxEvent → ℕ → ℕ → List OutboxEvent → List OutboxEvent
append event id now events =
    events
    ++ record {
      id = id;
      event_type = event.event_type;
      payload = event.payload;
      created_at = now;
      available_at = now;
      attempts = 0;
      claim_token = none;
      completed_handlers = [];
      last_error = [];
    }
      ∷ []

unfoldable pub to_claimed_event : OutboxEvent → ClaimedEvent
to_claimed_event row = record {
  message = record {
    event_id = row.id;
    event_type = row.event_type;
    payload = row.payload;
    occurred_at = row.created_at;
    attempts = row.attempts;
  };
  claim_token = row.claim_token;
  completed_handlers = row.completed_handlers;
}

-- The `WHERE` of the inner `SELECT`.
unfoldable pub is_due : ClaimOptions → (ℕ → Bool) → OutboxEvent → Bool
is_due o locked row =
    leb row.available_at o.now && (ltb row.attempts o.max_attempts && not (locked row.id))

-- `ORDER BY "availableAt"`
abbrev pub due_sooner : OutboxEvent → OutboxEvent → Bool
due_sooner a b = ltb a.available_at b.available_at

-- The identifiers that the inner `SELECT` answers.
unfoldable pub due_ids : ClaimOptions → (ℕ → Bool) → List OutboxEvent → List ℕ
due_ids o locked events =
    map (λ row. row.id) (take o.limit (sort_by due_sooner (keep_if (is_due o locked) events)))

-- The `SET` of the `UPDATE`.
unfoldable pub claim_row : ClaimOptions → (ℕ → ℕ) → OutboxEvent → OutboxEvent
claim_row o tokens row = record row {
  available_at = o.now + o.lease_ms;
  attempts = row.attempts + 1;
  claim_token = some (tokens row.id);
}

-- One statement: the rows that it returns, and the table after it.
unfoldable pub claim_due :
    ClaimOptions → (ℕ → Bool) → (ℕ → ℕ) → List OutboxEvent → List ClaimedEvent × List OutboxEvent
unfolding due_ids claim_row to_claimed_event
claim_due o locked tokens events =
    let ids = due_ids o locked events in
    let claimed = update_where (λ row. contains ids row.id) (claim_row o tokens) events in
    (map to_claimed_event (keep_if (λ row. contains ids row.id) claimed), claimed)

-- SQL's `=` on the token: a row without a token is held by nobody.
abbrev pub same_token : Option ℕ → Option ℕ → Bool
same_token (some t) token = is_some_of token t
same_token none token = false

unfoldable pub held_by : Lease → OutboxEvent → Bool
held_by lease row = (row.id == lease.event_id) && same_token row.claim_token lease.claim_token

abbrev pub push_handler : ℕ → OutboxEvent → OutboxEvent
push_handler name row = record row { completed_handlers = row.completed_handlers ++ name ∷ [] }

abbrev pub reschedule : ℕ → List Failure → OutboxEvent → OutboxEvent
reschedule available_at error row = record row { available_at = available_at; last_error = error }

-- `updateMany`: whether a row was named, and the table after it.
unfoldable pub record_handler_done : Lease → ℕ → List OutboxEvent → Bool × List OutboxEvent
record_handler_done lease name events = (
  ltb 0 (count_where (held_by lease) events),
  update_where (held_by lease) (push_handler name) events,
)

unfoldable pub delete_delivered : Lease → List OutboxEvent → Bool × List OutboxEvent
delete_delivered lease events =
    (ltb 0 (count_where (held_by lease) events), keep_if (λ row. not (held_by lease row)) events)

unfoldable pub schedule_retry :
    Lease → ℕ → List Failure → List OutboxEvent → Bool × List OutboxEvent
schedule_retry lease available_at error events = (
  ltb 0 (count_where (held_by lease) events),
  update_where (held_by lease) (reschedule available_at error) events,
)
