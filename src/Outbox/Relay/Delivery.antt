-- ===== src/Outbox/Relay/Delivery.antt =====
-- What a delivery leaves in the table when its lease holds throughout.
use vp_parts.Base.{
  ℕ, ◌+◌, ◌≤◌, ◌≡◌, refl, ap, ◌∙◌, inl, inr, Bool, true, false, not, Option, none, some, List, [],
  ◌∷◌, ◌++◌, arith, is_none, Option-cases, All, All-Has, contains, update_where, keep_if,
  count_where, count-update_where, update_where-twice, update_where-id, update_where-ext,
  delete-update_where, Has-keep_if_test,
}
use mathlib.Core.List.{append-nil, append_assoc}
use vp_parts.Outbox.{
  OutboxEvent, OutboxMessage, ClaimedEvent, Lease, Failure, no_handler, handler_failed, held_by,
  push_handler, reschedule, record_handler_done, delete_delivered, schedule_retry,
}
use vp_parts.Outbox.Relay.{
  Handle, Registry, handlers_of, lease_of, ran, run_handlers, pending_of, settle, deliver,
  retry_delay_ms,
}

-- Handlers that throw as `outcome` says, while nobody else writes the table.
abbrev pub calm : (ℕ → Option ℕ) → Handle
calm outcome name message events = (outcome name, events)

module _ (outcome : ℕ → Option ℕ) where
  abbrev pub succeeded : List ℕ → List ℕ
  succeeded = keep_if (λ name. is_none (outcome name))

  abbrev pub failures_of : List ℕ → List Failure
  failures_of [] = []
  failures_of (name ∷ names) =
      let rest = failures_of names in
      elim (outcome name) [ none ↦ rest | some error ↦ handler_failed name error ∷ rest ]

abbrev pub push_all : List ℕ → OutboxEvent → OutboxEvent
push_all names row = record row { completed_handlers = row.completed_handlers ++ names }

push_all-nil : (row : OutboxEvent) → push_all [] row ≡ row
push_all-nil row = rw append-nil

module _ (lease : Lease) where
  push-held :
      (name : ℕ) (row : OutboxEvent) → held_by lease (push_handler name row) ≡ held_by lease row
  unfolding held_by
  push-held name row = refl

  push_all-held :
      (names : List ℕ) (row : OutboxEvent) → held_by lease (push_all names row) ≡ held_by lease row
  unfolding held_by
  push_all-held names row = refl

  push-push_all :
      (name : ℕ) (names : List ℕ) (events : List OutboxEvent)
      → update_where
          (held_by lease)
          (push_all names)
          (update_where (held_by lease) (push_handler name) events)
        ≡ update_where (held_by lease) (push_all (name ∷ names)) events
  push-push_all name names events =
      update_where-twice (held_by lease) (push_handler name) (push_all names) events
        (push-held name)
      ∙ update_where-ext (held_by lease) _ _ events (λ row.
        ap (λ done. record row { completed_handlers = done })
          (append_assoc row.completed_handlers (name ∷ []) names))

  recorded :
      (name : ℕ) (events : List OutboxEvent)
      → 1 ≤ count_where (held_by lease) events
      → record_handler_done lease name events
        ≡ (true, update_where (held_by lease) (push_handler name) events)
  unfolding record_handler_done
  recorded name events held = ground arith

module _ (outcome : ℕ → Option ℕ) (lease : Lease) (message : OutboxMessage) where
  -- The loop runs every pending handler: those that succeed are recorded, the others reported.
  run_handlers-calm :
      (names : List ℕ) (failures : List Failure) (events : List OutboxEvent)
      → 1 ≤ count_where (held_by lease) events
      → run_handlers (calm outcome) lease message names failures events ≡ (
        ran (failures ++ failures_of outcome names),
        update_where (held_by lease) (push_all (succeeded outcome names)) events,
      )
  unfolding run_handlers
  run_handlers-calm [] failures events held = ground (
    arith,
    append-nil failures,
    update_where-id (held_by lease) (push_all []) events push_all-nil,
  )
  run_handlers-calm (name ∷ names) failures events held =
      let after = update_where (held_by lease) (push_handler name) events in
      let still : count_where (held_by lease) after ≡ count_where (held_by lease) events =
        count-update_where (held_by lease) (held_by lease) (push_handler name) events
          (push-held lease name) in
      elim (Option-cases (outcome name)) [
        | inl fine ↦ ground (
          arith,
          recorded lease name events held,
          push-push_all lease name (succeeded outcome names) events,
          run_handlers-calm names failures after (omega arith),
        )
        | inr (error, e) ↦ ground (
          arith,
          append_assoc failures (handler_failed name error ∷ []) (failures_of outcome names),
          run_handlers-calm names (failures ++ handler_failed name error ∷ []) events held,
        )
      ]

-- The failures that an attempt reports.
abbrev pub attempt_failures : (ℕ → Option ℕ) → Registry → ClaimedEvent → List Failure
attempt_failures outcome registry claimed = elim (handlers_of registry claimed.message.event_type) [
  | [] ↦ no_handler claimed.message.event_type ∷ []
  | name ∷ names ↦ failures_of outcome (pending_of claimed.completed_handlers (name ∷ names))
]

-- The handlers that an attempt finishes.
abbrev pub attempt_successes : (ℕ → Option ℕ) → Registry → ClaimedEvent → List ℕ
attempt_successes outcome registry claimed =
    succeeded outcome
      (pending_of claimed.completed_handlers (handlers_of registry claimed.message.event_type))

-- The table after an attempt that reported `failures` and finished the handlers `names`.
abbrev pub settled : ClaimedEvent → ℕ → List Failure → List ℕ → List OutboxEvent → List OutboxEvent
settled claimed now [] names events = keep_if (λ row. not (held_by (lease_of claimed) row)) events
settled claimed now (f ∷ fs) names events =
    update_where (held_by (lease_of claimed))
      (λ row.
        reschedule (now + retry_delay_ms claimed.message.attempts) (f ∷ fs) (push_all names row))
      events

settle-settled :
    (now : ℕ) (claimed : ClaimedEvent) (failures : List Failure) (names : List ℕ)
    (events : List OutboxEvent)
    → (settle now claimed failures
        (update_where (held_by (lease_of claimed)) (push_all names) events)).1
      ≡ settled claimed now failures names events
unfolding settle delete_delivered schedule_retry
settle-settled now claimed [] names events =
    delete-update_where (held_by (lease_of claimed)) (push_all names) events
      (push_all-held (lease_of claimed) names)
settle-settled now claimed (f ∷ fs) names events =
    update_where-twice (held_by (lease_of claimed)) (push_all names)
      (reschedule (now + retry_delay_ms claimed.message.attempts) (f ∷ fs)) events
      (push_all-held (lease_of claimed) names)

deliver-cases :
    (outcome : ℕ → Option ℕ) (registry : Registry) (now : ℕ) (claimed : ClaimedEvent)
    (handlers : List ℕ) (events : List OutboxEvent)
    → handlers_of registry claimed.message.event_type ≡ handlers
    → 1 ≤ count_where (held_by (lease_of claimed)) events
    → deliver (calm outcome) registry now claimed events
      ≡ settled claimed now
          (attempt_failures outcome registry claimed)
          (attempt_successes outcome registry claimed)
          events
unfolding deliver
deliver-cases outcome registry now claimed [] events e held =
    let same = update_where-id (held_by (lease_of claimed)) (push_all []) events push_all-nil in
    let done = settle-settled now claimed (no_handler claimed.message.event_type ∷ []) [] events in
    ground (arith, e, same, done)
deliver-cases outcome registry now claimed (name ∷ names) events e held =
    let pending = pending_of claimed.completed_handlers (name ∷ names) in
    let ran_all =
      run_handlers-calm outcome (lease_of claimed) claimed.message pending [] events held in
    let done =
      settle-settled now claimed (failures_of outcome pending) (succeeded outcome pending) events in
    ground (arith, e, ran_all, done)

-- Under a lease that holds throughout, a delivery with no failure deletes the event's row and
-- touches no other. With a failure it keeps the row: the handlers that succeeded are recorded after
-- those of earlier attempts, the failures are noted, and the event is due again after the backoff.
-- An event that no handler is registered for fails. Nobody else writes the table meanwhile.
pub deliver-settles :
    (outcome : ℕ → Option ℕ) (registry : Registry) (now : ℕ) (claimed : ClaimedEvent)
    (events : List OutboxEvent)
    → 1 ≤ count_where (held_by (lease_of claimed)) events
    → deliver (calm outcome) registry now claimed events
      ≡ settled claimed now
          (attempt_failures outcome registry claimed)
          (attempt_successes outcome registry claimed)
          events
deliver-settles outcome registry now claimed events =
    deliver-cases outcome registry now claimed (handlers_of registry claimed.message.event_type)
      events refl

-- Two handler tables answer alike for a handler.
abbrev pub AgreeOn : Handle → Handle → ℕ → Type 0
AgreeOn f g name =
    (message : OutboxMessage) (events : List OutboxEvent)
    → f name message events ≡ g name message events

run_handlers-agree :
    (f g : Handle) (lease : Lease) (message : OutboxMessage) (names : List ℕ)
    (failures : List Failure) (events : List OutboxEvent)
    → All (AgreeOn f g) names
    → run_handlers f lease message names failures events
      ≡ run_handlers g lease message names failures events
unfolding run_handlers
run_handlers-agree f g lease message [] failures events agree = refl
run_handlers-agree f g lease message (name ∷ names) failures events agree =
    let during = (g name message events).1 in
    let go_on =
      run_handlers-agree f g lease message names failures (record_handler_done lease name during).1
        agree.1 in
    elim (Option-cases (g name message events).0) [
      | inl fine ↦ ground (arith, agree.0 message events, go_on)
      | inr (error, e) ↦ ground (
        arith,
        agree.0 message events,
        run_handlers-agree f g lease message names (failures ++ handler_failed name error ∷ [])
            during agree.1,
      )
    ]

deliver-agree :
    (f g : Handle) (registry : Registry) (now : ℕ) (claimed : ClaimedEvent) (handlers : List ℕ)
    (events : List OutboxEvent)
    → handlers_of registry claimed.message.event_type ≡ handlers
    → All (AgreeOn f g) (pending_of claimed.completed_handlers handlers)
    → deliver f registry now claimed events ≡ deliver g registry now claimed events
unfolding deliver
deliver-agree f g registry now claimed [] events e agree = ground arith
deliver-agree f g registry now claimed (name ∷ names) events e agree = ground (
  arith,
  run_handlers-agree f g (lease_of claimed) claimed.message
      (pending_of claimed.completed_handlers (name ∷ names)) [] events agree,
)

-- A delivery depends on no handler that its event's row records as finished: with those answering
-- anything else, or writing anything else, it is the same delivery.
pub deliver_skips_completed :
    (f g : Handle) (registry : Registry) (now : ℕ) (claimed : ClaimedEvent)
    (events : List OutboxEvent)
    → ((name : ℕ) → contains claimed.completed_handlers name ≡ false → AgreeOn f g name)
    → deliver f registry now claimed events ≡ deliver g registry now claimed events
deliver_skips_completed f g registry now claimed events agree =
    let handlers = handlers_of registry claimed.message.event_type in
    let pending = pending_of claimed.completed_handlers handlers in
    deliver-agree f g registry now claimed handlers events refl (
      All-Has (AgreeOn f g) pending (λ name m.
        agree name (
          not_true (contains claimed.completed_handlers name)
            (Has-keep_if_test _ name handlers m))))
  where
    not_true : (b : Bool) → not b ≡ true → b ≡ false
    not_true true h = cc
    not_true false h = refl
