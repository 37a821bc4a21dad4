-- ===== src/Outbox/Steps.antt =====
-- The table under everything that writes it, in any order: transactions that append, and any
-- number of relays that claim, record, delete and reschedule, under leases of any age.
use vp_parts.Base.{
  ℕ, ◌≤◌, ◌<◌, ◌≡◌, refl, ap, inl, inr, Bool, true, false, List, [], ◌∷◌, map, arith, All, Has,
  All-append, contains, update_where, All-update_where, All-keep_if, Distinct, Distinct-eq,
  Distinct-update_where, Distinct-keep_if, Distinct-append,
}
use vp_parts.Outbox.{
  OutboxEvent, NewOutboxEvent, ClaimOptions, Lease, Failure, append, due_ids, is_due, claim_row,
  claim_due, held_by, push_handler, reschedule, record_handler_done, delete_delivered,
  schedule_retry,
}
use vp_parts.Outbox.Claims.{due_ids-is_due}
use vp_parts.Outbox.Relay.{max_attempts}

pub data Step (events : List OutboxEvent) : List OutboxEvent → Type 0 where
  appends :
      (event : NewOutboxEvent) (id now : ℕ)
      → contains (map (λ r. r.id) events) id ≡ false
      → Step events (append event id now events)
  claims :
      (o : ClaimOptions) (locked : ℕ → Bool) (tokens : ℕ → ℕ)
      → o.max_attempts ≡ max_attempts
      → Step events (claim_due o locked tokens events).1
  records : (lease : Lease) (name : ℕ) → Step events (record_handler_done lease name events).1
  deletes : (lease : Lease) → Step events (delete_delivered lease events).1
  retries :
      (lease : Lease) (available_at : ℕ) (error : List Failure)
      → Step events (schedule_retry lease available_at error events).1

pub data Reach (start : List OutboxEvent) : List OutboxEvent → Type 0 where
  here : Reach start start
  next :
      {events after : List OutboxEvent} → Reach start events → Step events after → Reach start after

-- Identifiers name one row, and no event has been attempted more often than it may be.
pub record IsSound (events : List OutboxEvent) : Type 0 where
  pub distinct : Distinct (λ r. r.id) events
  pub capped : All (λ r. r.attempts ≤ max_attempts) events

module _ (o : ClaimOptions) (tokens : ℕ → ℕ) (ids : List ℕ) where
  -- The rows chosen by identifier are rows with an attempt left.
  claims-capped :
      (events : List OutboxEvent)
      → ((row : OutboxEvent)
          → Has row events
          → contains ids row.id ≡ true
          → row.attempts < max_attempts)
      → All (λ r. r.attempts ≤ max_attempts) events
      → All
          (λ r. r.attempts ≤ max_attempts)
          (update_where (λ r. contains ids r.id) (claim_row o tokens) events)
  unfolding claim_row
  claims-capped [] left h = tt
  claims-capped (x ∷ xs) left h =
      let rest = claims-capped xs (λ row m. left row (inr m)) h.1 in
      let head = left x (inl refl) in ground (arith, rest, head)

claim-IsSound :
    (o : ClaimOptions) (locked : ℕ → Bool) (tokens : ℕ → ℕ) (events : List OutboxEvent)
    → o.max_attempts ≡ max_attempts
    → IsSound events
    → IsSound (claim_due o locked tokens events).1
unfolding claim_due is_due
claim-IsSound o locked tokens events cap s = record {
  distinct = Distinct-update_where (λ r. r.id) _ (claim_row o tokens) events same_id s.distinct;
  capped = claims-capped o tokens (due_ids o locked events) events left s.capped;
}
  where
    same_id : (r : OutboxEvent) → (claim_row o tokens r).id ≡ r.id
    same_id r = unfold claim_row in refl

    left :
        (row : OutboxEvent)
        → Has row events
        → contains (due_ids o locked events) row.id ≡ true
        → row.attempts < max_attempts
    left row m chosen =
        let (due, m', same, ready) = due_ids-is_due o locked events row.id chosen in
        let same_row = Distinct-eq (λ r. r.id) due row events s.distinct m' m same in
        ground (arith, ap (λ (r : OutboxEvent). r.attempts) same_row)

pub Step-IsSound :
    {events after : List OutboxEvent} → Step events after → IsSound events → IsSound after
unfolding append record_handler_done delete_delivered schedule_retry
Step-IsSound {events} (appends event id now fresh) s = record {
  distinct = Distinct-append (λ r. r.id) events _ fresh s.distinct;
  capped = All-append _ events _ s.capped (omega arith, tt);
}
Step-IsSound {events} (claims o locked tokens cap) s = claim-IsSound o locked tokens events cap s
Step-IsSound {events} (records lease name) s = record {
  distinct =
      Distinct-update_where (λ r. r.id) (held_by lease) (push_handler name) events (λ r. refl)
        s.distinct;
  capped = All-update_where _ (held_by lease) (push_handler name) events (λ r h _. h) s.capped;
}
Step-IsSound {events} (deletes lease) s = record {
  distinct = Distinct-keep_if (λ r. r.id) _ events s.distinct;
  capped = All-keep_if _ _ events s.capped;
}
Step-IsSound {events} (retries lease available_at error) s = record {
  distinct =
      Distinct-update_where (λ r. r.id) (held_by lease) (reschedule available_at error) events
        (λ r. refl) s.distinct;
  capped =
      All-update_where _ (held_by lease) (reschedule available_at error) events (λ r h _. h)
        s.capped;
}

-- From an empty table, whatever the writers do and in whatever order, no event is ever attempted
-- more than `MAX_ATTEMPTS` times, and no two rows share an identifier. The identifier of an
-- appended row is new.
pub Reach-IsSound : {events : List OutboxEvent} → Reach [] events → IsSound events
Reach-IsSound here = record { distinct = tt; capped = tt }
Reach-IsSound (next r st) = Step-IsSound st (Reach-IsSound r)
