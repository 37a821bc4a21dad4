-- ===== src/Outbox/Leases.antt =====
-- A write names the claim that it is made under, and changes nothing once another claim has taken
-- the event over.
use vp_parts.Base.{
  ℕ, ◌≡◌, refl, ap, ◌≢◌, inl, inr, Bool, true, false, some, List, [], ◌∷◌, map, arith, ◌==◌,
  if◌then◌else◌, Bool-cases, contains, update_where, count_where, update_where-none, delete-none,
}
use vp_parts.Outbox.Claims.{event_id_of, claimed-chosen}
use vp_parts.Outbox.{
  OutboxEvent, ClaimOptions, Lease, Failure, due_ids, claim_row, claim_due, held_by, push_handler,
  reschedule, record_handler_done, delete_delivered, schedule_retry,
}

-- What a write answers when its lease is gone.
abbrev pub Refused : List OutboxEvent → Bool × List OutboxEvent → Type 0
Refused events (held, after) = (held ≡ false) × (after ≡ events)

-- With no row under the lease, each of the three writes is refused and changes nothing.
pub writes-Refused :
    (lease : Lease) (name available_at : ℕ) (error : List Failure) (events : List OutboxEvent)
    → count_where (held_by lease) events ≡ 0
    → Refused events (record_handler_done lease name events)
      × Refused events (delete_delivered lease events)
      × Refused events (schedule_retry lease available_at error events)
unfolding record_handler_done delete_delivered schedule_retry
writes-Refused lease name available_at error events none_held = (
  ground (arith, update_where-none (held_by lease) (push_handler name) events none_held),
  ground (arith, delete-none (held_by lease) events none_held),
  ground
      (arith, update_where-none (held_by lease) (reschedule available_at error) events none_held),
)

module _ (o : ClaimOptions) (tokens : ℕ → ℕ) (lease : Lease) where
  claimed_row-unheld :
      (ids : List ℕ) (row : OutboxEvent)
      → contains ids lease.event_id ≡ true
      → lease.claim_token ≢ some (tokens lease.event_id)
      → held_by lease (if contains ids row.id then claim_row o tokens row else row) ≡ false
  unfolding claim_row held_by
  claimed_row-unheld ids row chosen old = elim (Bool-cases (row.id == lease.event_id)) [
    | inr other ↦ ground arith
    | inl same ↦
        let e : row.id ≡ lease.event_id = ground arith in
        ground (arith, ap (contains ids) e, ap tokens e)
  ]

  -- The claim wrote its own token on each row that it chose, so an older token holds none of them.
  claim-unheld :
      (ids : List ℕ) (events : List OutboxEvent)
      → contains ids lease.event_id ≡ true
      → lease.claim_token ≢ some (tokens lease.event_id)
      → count_where
          (held_by lease)
          (update_where (λ r. contains ids r.id) (claim_row o tokens) events)
        ≡ 0
  claim-unheld ids [] chosen old = refl
  claim-unheld ids (x ∷ xs) chosen old =
      ground (arith, claimed_row-unheld ids x chosen old, claim-unheld ids xs chosen old)

-- Once a claim has taken an event over under a new token, every write under an earlier token is
-- refused and leaves the table as the claim made it.
pub stale_lease-Refused :
    (o : ClaimOptions) (locked : ℕ → Bool) (tokens : ℕ → ℕ) (events : List OutboxEvent)
    (lease : Lease) (name available_at : ℕ) (error : List Failure)
    → contains (map event_id_of (claim_due o locked tokens events).0) lease.event_id ≡ true
    → lease.claim_token ≢ some (tokens lease.event_id)
    → let after = (claim_due o locked tokens events).1 in
      Refused after (record_handler_done lease name after)
      × Refused after (delete_delivered lease after)
      × Refused after (schedule_retry lease available_at error after)
unfolding claim_due
stale_lease-Refused o locked tokens events lease name available_at error taken old =
    writes-Refused lease name available_at error (claim_due o locked tokens events).1 (
      claim-unheld o tokens lease (due_ids o locked events) events
        (claimed-chosen o locked tokens events lease.event_id taken) old)
