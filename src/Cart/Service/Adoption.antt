-- ===== src/Cart/Service/Adoption.antt =====
-- What adopting a guest's cart leaves: `adopt` of apps/api/src/cart/cart.service.ts.
use vp_parts.Base.{
  ℕ, ◌+◌, ◌≤◌, min, ◌≡◌, refl, sym, ◌∙◌, ◌≢◌, subst, ◌⊎◌, inl, inr, Bool, true, ◌&&◌, ◌||◌, some,
  List, [], ◌∷◌, map, arith, ◌==◌, is_some_of, Bool-cases, Has, find_row, keep_if, any_row,
  count_where, length-keep_if, find_row-Has, AllPairs,
}
use vp_parts.Cart.Tables.{
  Cart, Carts, Identity, ok, max_cart_lines, max_cart_line_quantity, is_active, in_cart,
  find_active_by_token, find_active_by_customer, find_by_id,
}
use vp_parts.Cart.Lines.Valid.{IsValid}
use vp_parts.Cart.Lifecycle.Uniting.{AfterUniting, merge_into_united}
use vp_parts.Cart.Merge.{StoredLine, CartMergeResult, same_key}
use vp_parts.Cart.Merge.Index.{has_key}
use vp_parts.Cart.Merge.Union.{lists_key, merge_cart_lines_union}
use vp_parts.Cart.Service.{to_merged_line, merged_of, merge_carts, adopt}
use vp_parts.Cart.Service.Units.{
  holds, units, stored_lines, holds-stored, total-stored, units-own, holds-own, units-merged,
  holds-merged, length-merged, stored-IsMergeable,
}

active_found :
    (p : Cart → Bool) (c : Cart) (carts : List Cart)
    → find_row (λ x. p x && is_active x.status) carts ≡ some c
    → is_active c.status ≡ true
active_found p c carts h =
    ground (arith, (find_row-Has (λ x. p x && is_active x.status) c carts h).1)

listed_key :
    (i : Identity) (r : CartMergeResult) (xs : List StoredLine)
    → ((x : StoredLine) → Has x xs → lists_key x.identity r ≡ true)
    → any_row (has_key i) xs ≡ true
    → lists_key i r ≡ true
listed_key i r [] listed h = absurd (ground (arith, h))
listed_key i r (x ∷ xs) listed h = elim (Bool-cases (has_key i x)) [
  | inr other ↦ listed_key i r xs (λ y there. listed y (inr there)) (ground (arith, h, other))
  | inl this ↦
      let same : x.identity ≡ i = ground arith in
      subst (λ j. lists_key j r ≡ true) same (listed x (inl refl))
]

-- Adopting a guest's cart into the account's, in valid tables, when both are open and no other
-- request comes in between, goes through. Every article of the account's cart stays in it; every
-- article of the guest's is in it or answered as dropped, which happens only when it is full; and of
-- each article there it holds the units that both carts held together, up to what a line may have.
-- Every other cart holds the lines it had. The guest's row is merged into the account's and without
-- its token, the account's has moved on by a version and lives thirty days from now, and no other row
-- has changed. Both carts are found by their identifiers, which differ.
pub adopt_unites :
    (customer_id token now : ℕ) (s : Carts) (account guest : Cart)
    → IsValid s
    → find_active_by_customer customer_id s ≡ some account
    → find_active_by_token token s ≡ some guest
    → find_by_id account.id s ≡ some account
    → find_by_id guest.id s ≡ some guest
    → account.id ≢ guest.id
    → (s' : Carts) × (dropped : List Identity) × (adopt customer_id (some token) now s s
        ≡ ok (s', dropped))
      × ((i : Identity) → holds account.id i s.items ≡ true → holds account.id i s'.items ≡ true)
      × ((i : Identity)
          → holds guest.id i s.items ≡ true
          → holds account.id i s'.items || any_row (same_key i) dropped ≡ true)
      × ((dropped ≡ []) ⊎ (max_cart_lines ≤ count_where (in_cart account.id) s'.items))
      × ((i : Identity)
          → holds account.id i s'.items ≡ true
          → units account.id i s'.items
            ≡ min max_cart_line_quantity (units account.id i s.items + units guest.id i s.items))
      × ((other : ℕ)
          → other ≢ account.id
          → keep_if (in_cart other) s'.items ≡ keep_if (in_cart other) s.items)
      × AllPairs (AfterUniting account.id guest.id now) s.carts s'.carts
unfolding adopt merge_carts merged_of find_active_by_customer
adopt_unites customer_id token now s account guest v theirs held there from apart =
    let open_account : is_active account.status ≡ true =
      active_found (λ c. is_some_of c.customer_id customer_id) account s.carts theirs in
    let fits : is_active account.status && (account.version == account.version) ≡ true =
      ground (arith, open_account) in
    let merged = merged_of account guest s in
    let k = account.id in
    let (s', merges, whole, others, rows) =
      (merge_into_united k guest.id account.version now (map to_merged_line merged.lines) s account
          guest there from apart).1
        fits in
    let own = keep_if (in_cart k) s'.items in
    let (unique, room, lines) = stored-IsMergeable k s v in
    let (_, _, guests) = stored-IsMergeable guest.id s v in
    let (stay, listed, full, sum, _, _) =
      merge_cart_lines_union (stored_lines k s) (stored_lines guest.id s) unique room lines
        guests in
    let held_after : (i : Identity) → holds k i s'.items ≡ any_row (has_key i) merged.lines =
      λ i. sym (holds-own k i s'.items) ∙ holds-merged k i merged.lines own whole in
    (
      s',
      merged.dropped,
      ground (arith, theirs, held, merges),
      λ i h. held_after i ∙ stay i (holds-stored k i s ∙ h),
      λ i h.
          let known =
            listed_key i merged (stored_lines guest.id s) listed (holds-stored guest.id i s ∙ h) in
          ground (arith, held_after i, known),
      elim full [
        | inl none_dropped ↦ inl none_dropped
        | inr over ↦ inr (
            omega (
              arith,
              over,
              length-keep_if (in_cart k) s'.items,
              length-merged k merged.lines own whole,
            ))
      ],
      λ i h.
          let q = sum i (sym (held_after i) ∙ h) in
          let after = sym (units-own k i s'.items) ∙ units-merged k i merged.lines own whole in
          omega (arith, q, after, total-stored k i s, total-stored guest.id i s),
      others,
      rows,
    )
