-- ===== src/Cart/Lifecycle/Uniting.antt =====
-- What `mergeInto` does to the tables.
use vp_parts.Base.{
  ℕ, ◌+◌, ◌≡◌, refl, ap, ◌≢◌, true, false, not, ◌&&◌, none, some, List, ◌++◌, map, arith,
  ℕ_discrete, ltb, ◌==◌, update_where, keep_if, count_where, count-update_where, keep_if-append,
  keep_if-keep_if, count-found, append-nil, keep_if-all, keep_if-none, keep_if-disjoint, All-map,
  AllPairs, AllPairs-map, AllPairs-update_where, AllPairs-update_after,
}
use vp_parts.Cart.Shipping.{to_shipping_columns}
use vp_parts.Cart.Tables.{
  Cart, merged, CartItem, Carts, MergedCartLine, ok, err, version_conflict, in_cart, is_active,
  find_by_id, lock_cart, touch, guest_expiry,
}
use vp_parts.Cart.Lifecycle.{merge_into, merged_item, retired, write_lines}

abbrev merged_tables : ℕ → ℕ → List MergedCartLine → ℕ → Carts → Carts
merged_tables target_id source_id lines now s = record {
  carts =
      update_where (λ c. c.id == target_id) (touch (guest_expiry now))
        (update_where (λ c. c.id == source_id) (retired target_id) s.carts);
  items = keep_if (λ x. not (in_cart target_id x)) s.items ++ map (merged_item target_id) lines;
}

-- The row's version rises by one and its life is `GUEST_CART_TTL_DAYS` from now for the target, the
-- source is merged into the target, and any other row is the same.
abbrev pub AfterUniting : ℕ → ℕ → ℕ → Cart → Cart → Type 0
AfterUniting target_id source_id now c c' =
    (c.id ≡ source_id
      → c' ≡ record c { status = merged; token = none; merged_into_id = some target_id })
    × (c.id ≡ target_id → c' ≡ record c { version = c.version + 1; expires_at = now + 2592000000 })
    × (c.id ≢ source_id → c.id ≢ target_id → c' ≡ c)

-- The source merged away, and any other row the same.
abbrev IsRetired : ℕ → ℕ → Cart → Cart → Type 0
IsRetired target_id source_id c c' =
    (c.id ≡ source_id
      → c' ≡ record c { status = merged; token = none; merged_into_id = some target_id })
    × (c.id ≢ source_id → c' ≡ c)

module _ (target_id source_id now : ℕ) (apart : target_id ≢ source_id) (c c' : Cart) where
  target_row :
      IsRetired target_id source_id c c'
      → (c'.id == target_id) ≡ true
      → AfterUniting target_id source_id now c (touch (guest_expiry now) c')
  unfolding guest_expiry
  target_row h e = elim (ℕ_discrete c.id source_id) [
    | yes this ↦ absurd (apart (ground (arith, ap (λ (x : Cart). x.id) (h.0 this), this, e)))
    | no other ↦
        let same = h.1 other in
        (
          λ this. absurd (other this),
          λ _. rw same (ground arith),
          λ _ free. absurd (free (ground (arith, ap (λ (x : Cart). x.id) same, e))),
        )
  ]

  other_row :
      IsRetired target_id source_id c c'
      → (c'.id == target_id) ≡ false
      → AfterUniting target_id source_id now c c'
  other_row h e = (
    h.0,
    λ this. elim (ℕ_discrete c.id source_id) [
      | yes source ↦ absurd (apart (ground (arith, this, source)))
      | no other ↦ absurd (ground (arith, ap (λ (x : Cart). x.id) (h.1 other), this, e))
    ],
    λ other _. h.1 other,
  )

united :
    (target_id source_id now : ℕ) (carts : List Cart)
    → target_id ≢ source_id
    → AllPairs (AfterUniting target_id source_id now) carts (
        update_where
          (λ c. c.id == target_id)
          (touch (guest_expiry now))
          (update_where (λ c. c.id == source_id) (retired target_id) carts))
united target_id source_id now carts apart =
    let away = update_where (λ c. c.id == source_id) (retired target_id) carts in
    let first : AllPairs (IsRetired target_id source_id) carts away =
      AllPairs-update_where (IsRetired target_id source_id) (λ c. c.id == source_id)
        (retired target_id) carts (λ c e. (λ _. refl, λ other. absurd (other (ground (arith, e)))))
        (λ c e. (λ this. absurd (ground (arith, this, e)), λ _. refl)) in
    AllPairs-update_after (AfterUniting target_id source_id now) (IsRetired target_id source_id)
      (λ c. c.id == target_id) (touch (guest_expiry now)) carts away
      (target_row target_id source_id now apart) (other_row target_id source_id now apart) first

-- A merged line as it is stored.
abbrev pub IsStored : ℕ → MergedCartLine → CartItem → Type 0
IsStored cart_id m x =
    (x.cart_id ≡ cart_id)
    × (x.brand_id ≡ m.line.identity.brand_id)
    × (x.article_number ≡ m.line.identity.article_number)
    × (x.quantity ≡ m.line.quantity)
    × (x.is_selected ≡ m.is_selected)
    × (x.added_at ≡ m.added_at)
    × (x.catalog ≡ m.line.catalog)
    × (x.shipping ≡ to_shipping_columns m.line.shipping_profile)

stored :
    (cart_id : ℕ) (lines : List MergedCartLine)
    → AllPairs (IsStored cart_id) lines (map (merged_item cart_id) lines)
unfolding merged_item
stored cart_id lines =
    AllPairs-map (IsStored cart_id) (merged_item cart_id) lines
      (λ m. (refl, refl, refl, refl, refl, refl, refl, refl))

module _ (target_id source_id : ℕ) (lines : List MergedCartLine) (now : ℕ) (s : Carts) where
  abbrev after : Carts
  after = merged_tables target_id source_id lines now s

  target_lines : keep_if (in_cart target_id) after.items ≡ map (merged_item target_id) lines
  unfolding merged_item
  target_lines =
      rw
        (
          keep_if-append (in_cart target_id) (keep_if (λ x. not (in_cart target_id x)) s.items)
              (map (merged_item target_id) lines),
          keep_if-disjoint (in_cart target_id) (λ x. not (in_cart target_id x)) s.items
              (λ x h. ground arith),
        )
        (keep_if-all (in_cart target_id) (map (merged_item target_id) lines) (
          All-map (λ x. in_cart target_id x ≡ true) (merged_item target_id) lines
            (λ m. ground arith)))

  other_lines :
      (other : ℕ)
      → other ≢ target_id
      → keep_if (in_cart other) after.items ≡ keep_if (in_cart other) s.items
  unfolding merged_item
  other_lines other apart =
      rw
        (
          keep_if-append (in_cart other) (keep_if (λ x. not (in_cart target_id x)) s.items)
              (map (merged_item target_id) lines),
          keep_if-keep_if (in_cart other) (λ x. not (in_cart target_id x)) s.items
              (λ x h. ground arith),
          keep_if-none (in_cart other) (map (merged_item target_id) lines) (
              All-map (λ x. in_cart other x ≡ false) (merged_item target_id) lines
                (λ m. ground arith)),
        )
        (append-nil (keep_if (in_cart other) s.items))

  module _ (target source : Cart) where
    merges :
        (version : ℕ)
        → find_by_id target_id s ≡ some target
        → find_by_id source_id s ≡ some source
        → is_active target.status && (target.version == version) ≡ true
        → merge_into target_id version source_id lines now s ≡ ok after
    unfolding merge_into lock_cart find_by_id write_lines
    merges version there from fits =
        let named = count-found (λ c. c.id == source_id) source s.carts from in
        let still : ltb 0 (
              count_where (λ c. c.id == target_id)
                (update_where (λ c. c.id == source_id) (retired target_id) s.carts))
            ≡ true =
          rw
            (count-update_where (λ c. c.id == target_id) (λ c. c.id == source_id)
              (retired target_id) s.carts (λ c. refl))
            (count-found (λ c. c.id == target_id) target s.carts there) in
        ground (arith, there, fits, named, still)

    refuses :
        (version : ℕ)
        → find_by_id target_id s ≡ some target
        → is_active target.status && (target.version == version) ≡ false
        → merge_into target_id version source_id lines now s ≡ err version_conflict
    unfolding merge_into lock_cart find_by_id
    refuses version there closed = ground (arith, there, closed)

-- Uniting two different carts that exist. If the target is no longer active, or not at the version
-- that the merge was made from, it is a version conflict. Otherwise it is done: the target holds
-- exactly the merged lines, column by column, and every other cart the lines it had; the source's
-- row is `MERGED` into the target and without its token, the target's row has its version raised by
-- one and lives thirty days from now, and every other cart's row is as it was.
pub merge_into_united :
    (target_id source_id version now : ℕ) (lines : List MergedCartLine) (s : Carts)
    (target source : Cart)
    → find_by_id target_id s ≡ some target
    → find_by_id source_id s ≡ some source
    → target_id ≢ source_id
    → let fits = is_active target.status && (target.version == version) in
      let outcome = merge_into target_id version source_id lines now s in
      (fits ≡ false → outcome ≡ err version_conflict)
      × (fits ≡ true
          → (s' : Carts) × (outcome ≡ ok s')
            × AllPairs (IsStored target_id) lines (keep_if (in_cart target_id) s'.items)
            × ((other : ℕ)
                → other ≢ target_id
                → keep_if (in_cart other) s'.items ≡ keep_if (in_cart other) s.items)
            × AllPairs (AfterUniting target_id source_id now) s.carts s'.carts)
merge_into_united target_id source_id version now lines s target source there from apart = (
  refuses target_id source_id lines now s target source version there,
  λ fits. (
    after target_id source_id lines now s,
    merges target_id source_id lines now s target source version there from fits,
    rw (target_lines target_id source_id lines now s) (stored target_id lines),
    other_lines target_id source_id lines now s,
    united target_id source_id now s.carts apart,
  ),
)
