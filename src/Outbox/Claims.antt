-- ===== src/Outbox/Claims.antt =====
-- What one claim hands out: no more than asked for, each within its attempts, and to one relay.
use vp_parts.Base.{
  ℕ, ◌+◌, ◌≤◌, ◌<◌, ◌≡◌, refl, sym, ap, ◌∙◌, subst, inl, inr, Bool, true, false, some, List, map,
  arith, Bool-cases, length, take, All, Has, length-take-le, Has-take, All-Has, contains,
  contains-map, Has-map, length-map, update_where, keep_if, count_where, count-update_where,
  length-keep_if, Has-update_where, Has-keep_if, Has-keep_if_test, Distinct, Distinct-eq,
  count-keys-le, sort_by, Has-sort_by,
}
use vp_parts.Outbox.{
  OutboxEvent, ClaimOptions, ClaimedEvent, is_due, due_sooner, due_ids, claim_row, claim_due,
  to_claimed_event,
}

abbrev pub event_id_of : ClaimedEvent → ℕ
event_id_of c = c.message.event_id

module _ (o : ClaimOptions) (locked : ℕ → Bool) where
  -- An identifier that the inner `SELECT` answers is that of a due row.
  pub due_ids-is_due :
      (events : List OutboxEvent) (k : ℕ)
      → contains (due_ids o locked events) k ≡ true
      → (row : OutboxEvent) × Has row events × (row.id ≡ k) × (is_due o locked row ≡ true)
  unfolding due_ids
  due_ids-is_due events k h =
      let due = keep_if (is_due o locked) events in
      let (row, m, e) = contains-map (λ r. r.id) k (take o.limit (sort_by due_sooner due)) h in
      let kept = Has-sort_by due_sooner row due (Has-take o.limit row (sort_by due_sooner due) m) in
      (
        row,
        Has-keep_if (is_due o locked) row events kept,
        e,
        Has-keep_if_test (is_due o locked) row events kept,
      )

  due_ids-length : (events : List OutboxEvent) → length (due_ids o locked events) ≤ o.limit
  unfolding due_ids
  due_ids-length events =
      let due = sort_by due_sooner (keep_if (is_due o locked) events) in
      omega (arith, length-map (take o.limit due) (λ r. r.id), length-take-le o.limit due)

  module _ (tokens : ℕ → ℕ) (events : List OutboxEvent) where
    -- A claimed event is the claimed form of a row that the claim chose.
    claim_due-origin :
        (c : ClaimedEvent)
        → Has c (claim_due o locked tokens events).0
        → (row : OutboxEvent) × Has row events
          × (contains (due_ids o locked events) row.id ≡ true)
          × (c ≡ to_claimed_event (claim_row o tokens row))
    unfolding claim_due claim_row to_claimed_event
    claim_due-origin c h =
        let chosen : OutboxEvent → Bool = λ r. contains (due_ids o locked events) r.id in
        let claimed = update_where chosen (claim_row o tokens) events in
        let (r, m, e) = Has-map to_claimed_event c (keep_if chosen claimed) h in
        let test = Has-keep_if_test chosen r claimed m in
        let (row, k, q) =
          Has-update_where chosen (claim_row o tokens) r events (Has-keep_if chosen r claimed m) in
        elim (Bool-cases (chosen row)) [
          | inl yes_chosen ↦ (row, k, yes_chosen, ground arith)
          | inr skipped ↦ absurd (ground arith)
        ]

    -- What a relay may rely on about an event that it was handed.
    pub record IsGranted (c : ClaimedEvent) : Type 0 where
      pub counted : 1 ≤ c.message.attempts
      pub capped : c.message.attempts ≤ o.max_attempts
      pub unlocked : locked c.message.event_id ≡ false
      pub token_drawn : c.claim_token ≡ some (tokens c.message.event_id)

    granted :
        Distinct (λ r. r.id) events
        → (c : ClaimedEvent) → Has c (claim_due o locked tokens events).0
        → IsGranted c
    unfolding to_claimed_event claim_row is_due
    granted d c h =
        let (row, m, chosen, e) = claim_due-origin c h in
        let (due, m', same, ready) = due_ids-is_due events row.id chosen in
        let same_row = Distinct-eq (λ r. r.id) due row events d m' m same in
        subst IsGranted (sym e) (
          subst (λ r. IsGranted (to_claimed_event (claim_row o tokens r))) same_row
            (holds due ready))
      where
        holds :
            (r : OutboxEvent)
            → is_due o locked r ≡ true
            → IsGranted (to_claimed_event (claim_row o tokens r))
        holds r ready = ground arith

    count-claimed :
        (ids : List ℕ)
        → count_where
            (λ r. contains ids r.id)
            (update_where (λ r. contains ids r.id) (claim_row o tokens) events)
          ≡ count_where (λ r. contains ids r.id) events
    unfolding claim_row
    count-claimed ids = count-update_where _ _ (claim_row o tokens) events (λ x. refl)

    -- Every event of a claim is granted: it was due and unlocked, carries the attempt being made,
    -- which stays within the maximum, and the token drawn for it. A claim hands out at most
    -- `limit` events. No two rows share an identifier.
    pub claim_due_bounds :
        Distinct (λ r. r.id) events
        → All IsGranted (claim_due o locked tokens events).0
          × (length (claim_due o locked tokens events).0 ≤ o.limit)
    unfolding claim_due
    claim_due_bounds d =
        let ids = due_ids o locked events in
        let chosen : OutboxEvent → Bool = λ r. contains ids r.id in
        let claimed = update_where chosen (claim_row o tokens) events in
        (
          All-Has IsGranted (claim_due o locked tokens events).0 (granted d),
          omega (
            arith,
            length-map (keep_if chosen claimed) to_claimed_event,
            length-keep_if chosen claimed,
            count-claimed ids,
            count-keys-le (λ r. r.id) ids events d,
            due_ids-length events,
          ),
        )

    -- A row that the claim chose is out of reach until the lease runs out.
    claimed-available :
        (row : OutboxEvent)
        → Has row (claim_due o locked tokens events).1
        → contains (due_ids o locked events) row.id ≡ true
        → row.available_at ≡ o.now + o.lease_ms
    unfolding claim_due claim_row
    claimed-available row m chosen =
        let (r, k, e) =
          Has-update_where (λ x. contains (due_ids o locked events) x.id) (claim_row o tokens) row
            events m in
        elim (Bool-cases (contains (due_ids o locked events) r.id)) [
          | inl picked ↦ ground arith
          | inr skipped ↦ absurd (ground arith)
        ]

-- The event that a claim handed out under an identifier was chosen by it.
pub claimed-chosen :
    (o : ClaimOptions) (locked : ℕ → Bool) (tokens : ℕ → ℕ) (events : List OutboxEvent) (k : ℕ)
    → contains (map event_id_of (claim_due o locked tokens events).0) k ≡ true
    → contains (due_ids o locked events) k ≡ true
unfolding to_claimed_event claim_row
claimed-chosen o locked tokens events k h =
    let (c, m, same) = contains-map event_id_of k (claim_due o locked tokens events).0 h in
    let (row, _, chosen, e) = claim_due-origin o locked tokens events c m in
    subst (λ j. contains (due_ids o locked events) j ≡ true) (sym (ap event_id_of e) ∙ same) chosen

-- While a lease runs, no later claim is handed an event of this one, whatever it asks for and
-- whatever tokens and locks it meets.
pub claim_due_exclusive :
    (o o' : ClaimOptions) (locked locked' : ℕ → Bool) (tokens tokens' : ℕ → ℕ)
    (events : List OutboxEvent) (k : ℕ)
    → o'.now < o.now + o.lease_ms
    → contains (map event_id_of (claim_due o locked tokens events).0) k ≡ true
    → let later = claim_due o' locked' tokens' (claim_due o locked tokens events).1 in
      contains (map event_id_of later.0) k ≡ false
unfolding is_due
claim_due_exclusive o o' locked locked' tokens tokens' events k early first =
    let table = (claim_due o locked tokens events).1 in
    let later = (claim_due o' locked' tokens' table).0 in
    elim (Bool-cases (contains (map event_id_of later) k)) [
      | inr apart ↦ apart
      | inl again ↦
          let chosen = claimed-chosen o locked tokens events k first in
          let again_chosen = claimed-chosen o' locked' tokens' table k again in
          let (row, m, same, due) = due_ids-is_due o' locked' table k again_chosen in
          let leased =
            claimed-available o locked tokens events row m
              (subst (λ j. contains (due_ids o locked events) j ≡ true) (sym same) chosen) in
          absurd (ground arith)
    ]
