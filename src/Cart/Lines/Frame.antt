-- ===== src/Cart/Lines/Frame.antt =====
-- What a line operation does to the rest of the tables.
use vp_parts.Base.{
  ℕ, ◌+◌, ◌≡◌, refl, ap, ◌∙◌, ◌≢◌, inl, inr, true, false, not, List, [], ◌∷◌, ◌++◌, arith, dec_lt,
  ◌==◌, Bool-cases, Option-cases, update_where, keep_if, count_where, keep_if-update_where,
  keep_if-append, keep_if-keep_if, AllPairs, AllPairs-update_where,
}
use mathlib.Core.List.{append-nil}
use vp_parts.Cart.Tables.{
  Cart, CartItem, Carts, Identity, CartLineInput, Result, ok, err, is_active, in_cart, is_line,
  lock_cart, update_cart, guest_expiry, touch, ◌>>=◌,
}
use vp_parts.Cart.Lines.{
  mutate, add_line, update_line, remove_line, set_all_selected, clear, assert_room_for_line,
  upsert_line, clamp_line, new_item, patched, capped, adding, patching, removing, selecting,
  emptying, selected,
}
use vp_parts.Cart.Lines.Valid.{Keeps}
use vp_parts.Cart.Lines.Adding.{over_full, raised, upsert_line-raise, upsert_line-insert}
use vp_parts.Cart.Lines.Operations.{CartOp, adds, updates, removes, selects, clears, apply_op}

-- The lines of the other carts.
abbrev pub elsewhere : ℕ → List CartItem → List CartItem
elsewhere k = keep_if (λ x. not (in_cart k x))

-- The change wrote lines of the cart alone.
abbrev IsLocal : ℕ → Carts → Carts → Type 0
IsLocal k s s' = (s'.carts ≡ s.carts) × (elsewhere k s'.items ≡ elsewhere k s.items)

-- The row of the cart has moved on by a version and lives `GUEST_CART_TTL_DAYS` from now; another row
-- is the same.
abbrev pub IsTouched : ℕ → ℕ → Cart → Cart → Type 0
IsTouched k now c c' =
    (c.id ≡ k
      → (c'.version ≡ c.version + 1)
        × (c'.expires_at ≡ now + 2592000000)
        × (record c' { version = c.version; expires_at = c.expires_at } ≡ c))
    × (c.id ≢ k → c' ≡ c)

touched :
    (k now : ℕ) (carts : List Cart)
    → AllPairs
        (IsTouched k now)
        carts
        (update_where (λ c. c.id == k) (touch (guest_expiry now)) carts)
unfolding guest_expiry
touched k now carts =
    AllPairs-update_where (IsTouched k now) (λ c. c.id == k) (touch (guest_expiry now)) carts
      (λ c e. (λ _. (refl, ground arith, refl), λ other. absurd (other (ground (arith, e)))))
      (λ c e. (λ this. absurd (ground (arith, this, e)), λ _. refl))

-- The cart's row is touched, no other row has changed, and neither have the others' lines.
abbrev pub IsFramed : ℕ → ℕ → Carts → Carts → Type 0
IsFramed k now s s' =
    AllPairs (IsTouched k now) s.carts s'.carts × (elsewhere k s'.items ≡ elsewhere k s.items)

mutate-IsFramed :
    (k now : ℕ) (change : Carts → Result Carts) (s : Carts)
    → Keeps (IsLocal k s) (change s)
    → Keeps (IsFramed k now s) (mutate k now change s)
unfolding mutate
mutate-IsFramed k now change s kept = elim (Option-cases (lock_cart k s)) [
  | inl e ↦ rw (e, mutate) tt
  | inr (cart, e) ↦
      rw (e, mutate)
        (elim (Bool-cases (is_active cart.status)) [
          | inl on ↦ rw on (step (change s) kept)
          | inr off ↦ rw off tt
        ])
]
  where
    step :
        (r : Result Carts)
        → Keeps (IsLocal k s) r
        → Keeps (IsFramed k now s) (r >>= (λ s'. ok (update_cart k (touch (guest_expiry now)) s')))
    step (ok s') v = (rw v.0 (touched k now s.carts), v.1)
    step (err e) v = tt

-- A line of a cart is none of the others'.
line-elsewhere :
    (k : ℕ) (i : Identity) (x : CartItem) → is_line k i x ≡ true → not (in_cart k x) ≡ false
line-elsewhere k i x h = ground arith

over_full-elsewhere :
    (k : ℕ) (i : Identity) (x : CartItem) → over_full k i x ≡ true → not (in_cart k x) ≡ false
over_full-elsewhere k i x h = ground arith

new_item-elsewhere :
    (k now : ℕ) (line : CartLineInput) → elsewhere k (new_item k now line ∷ []) ≡ []
unfolding new_item
new_item-elsewhere k now line = ground arith

upsert-IsLocal :
    (k now : ℕ) (line : CartLineInput) (s : Carts)
    → IsLocal k s (clamp_line k line.identity (upsert_line k now line s))
unfolding raised
upsert-IsLocal k now line s =
    let i = line.identity in
    let p = is_line k i in
    let others = λ (x : CartItem). not (in_cart k x) in
    elim (dec_lt 0 (count_where p s.items)) [
      | yes held ↦
          let once = update_where p (raised k now line s) s.items in
          rw (upsert_line-raise k now line s held) (
            refl,
            keep_if-update_where others (over_full k i) capped once (λ x. refl)
                  (over_full-elsewhere k i)
                ∙ keep_if-update_where others p (raised k now line s) s.items (λ x. refl)
                    (line-elsewhere k i),
          )
      | no absent ↦
          let more = s.items ++ new_item k now line ∷ [] in
          rw (upsert_line-insert k now line s (omega arith)) (
            refl,
            keep_if-update_where others (over_full k i) capped more (λ x. refl)
                  (over_full-elsewhere k i)
                ∙ keep_if-append others s.items (new_item k now line ∷ [])
                ∙ ap (◌++◌ (elsewhere k s.items)) (new_item-elsewhere k now line)
                ∙ append-nil (elsewhere k s.items),
          )
    ]

adding-IsLocal :
    (k now : ℕ) (line : CartLineInput) (s : Carts) → Keeps (IsLocal k s) (adding k now line s)
unfolding assert_room_for_line
adding-IsLocal k now line s = ground (arith, upsert-IsLocal k now line s)

-- A line operation that goes through raises the version of its cart by one, moves its expiry to
-- thirty days from now, leaves the row's other columns, and changes no other cart's row and no other
-- cart's line.
pub apply_op-IsFramed :
    (k now : ℕ) (op : CartOp) (s : Carts) → Keeps (IsFramed k now s) (apply_op k now op s)
unfolding apply_op add_line update_line remove_line set_all_selected clear
apply_op-IsFramed k now (adds line) s =
    mutate-IsFramed k now (adding k now line) s (adding-IsLocal k now line s)
apply_op-IsFramed k now (updates i patch) s = mutate-IsFramed k now (patching k i patch) s (
    ground (
      arith,
      keep_if-update_where (λ x. not (in_cart k x)) (is_line k i) (patched patch) s.items
          (λ x. refl) (line-elsewhere k i),
    ))
apply_op-IsFramed k now (removes i) s = mutate-IsFramed k now (removing k i) s (
  refl,
  keep_if-keep_if (λ x. not (in_cart k x)) (λ x. not (is_line k i x)) s.items
      (λ x h. ground (arith, line-elsewhere k i x)),
)
apply_op-IsFramed k now (selects b) s = mutate-IsFramed k now (selecting k b) s (
  refl,
  keep_if-update_where (λ x. not (in_cart k x)) (in_cart k) (selected b) s.items (λ x. refl)
      (λ x h. ground arith),
)
apply_op-IsFramed k now clears s =
    mutate-IsFramed k now (emptying k) s
      (refl, keep_if-keep_if (λ x. not (in_cart k x)) (λ x. not (in_cart k x)) s.items (λ x h. h))
