-- ===== src/Cart/Lifecycle/Sweeping.antt =====
-- What `deleteExpiredGuestCarts` does to the tables.
use vp_parts.Base.{
  ℕ, ◌+◌, ◌<◌, ◌≡◌, refl, ap, subst, inl, inr, ◌↔◌, true, false, not, none, List, [], ◌∷◌, map,
  arith, ◌==◌, Bool-cases, length, Has, contains, keep_if, keep_if-keep_if, keep_if-disjoint,
  count_keep_if-split, Has-keep_if, Has-keep_if_test, keep_if-Has,
}
use vp_parts.Cart.Tables.{Cart, active, CartItem, Carts, in_cart}
use vp_parts.Cart.Lifecycle.{is_swept, delete_expired_guest_carts}

abbrev swept_ids : ℕ → Carts → List ℕ
swept_ids now s = map (λ c. c.id) (keep_if (is_swept now) s.carts)

-- A cart to be swept is named among the swept ones.
swept_named :
    (now : ℕ) (c : Cart) (carts : List Cart)
    → Has c carts
    → is_swept now c ≡ true
    → contains (map (λ x. x.id) (keep_if (is_swept now) carts)) c.id ≡ true
swept_named now c [] there swept = absurd there
swept_named now c (x ∷ xs) (inl e) swept = ground (arith, ap (is_swept now) e)
swept_named now c (x ∷ xs) (inr there) swept = ground (arith, swept_named now c xs there swept)

keep-unswept :
    (k : ℕ) (ids : List ℕ) (items : List CartItem)
    → contains ids k ≡ false
    → keep_if (in_cart k) (keep_if (λ x. not (contains ids x.cart_id)) items)
      ≡ keep_if (in_cart k) items
keep-unswept k ids items free =
    keep_if-keep_if (in_cart k) (λ x. not (contains ids x.cart_id)) items
      (λ x gone. elim (Bool-cases (in_cart k x)) [
        | inr e ↦ e
        | inl e ↦
            let same : x.cart_id ≡ k = ground arith in
            let there : contains ids k ≡ true =
              subst (λ j. contains ids j ≡ true) same (ground (arith, gone)) in
            absurd (ground arith)
      ])

drop-swept :
    (k : ℕ) (ids : List ℕ) (items : List CartItem)
    → contains ids k ≡ true
    → keep_if (in_cart k) (keep_if (λ x. not (contains ids x.cart_id)) items) ≡ []
drop-swept k ids items there =
    keep_if-disjoint (in_cart k) (λ x. not (contains ids x.cart_id)) items
      (λ x stays. elim (Bool-cases (in_cart k x)) [
        | inr e ↦ e
        | inl e ↦
            let same : x.cart_id ≡ k = ground arith in
            let gone : contains ids k ≡ false =
              subst (λ j. contains ids j ≡ false) same (ground (arith, stays)) in
            absurd (ground arith)
      ])

-- An open cart of a guest that was not ordered from, and whose time is over.
abbrev pub IsExpiredGuest : ℕ → Cart → Type 0
IsExpiredGuest now c =
    (c.status ≡ active) × (c.customer_id ≡ none) × (c.order_id ≡ none) × (c.expires_at < now)

swept-IsExpiredGuest : (now : ℕ) (c : Cart) → (is_swept now c ≡ true) ↔ IsExpiredGuest now c
swept-IsExpiredGuest now c = ground arith

unswept : (now : ℕ) (c : Cart) → ¬ IsExpiredGuest now c → is_swept now c ≡ false
unswept now c live = elim (Bool-cases (is_swept now c)) [
  | inl e ↦ absurd (live ((swept-IsExpiredGuest now c).0 e))
  | inr e ↦ e
]

-- An identifier that no expired guest cart has is none of the swept ones.
unswept_id :
    (now k : ℕ) (carts : List Cart)
    → ((c : Cart) → Has c carts → c.id ≡ k → ¬ IsExpiredGuest now c)
    → contains (map (λ c. c.id) (keep_if (is_swept now) carts)) k ≡ false
unswept_id now k [] live = refl
unswept_id now k (c ∷ carts) live =
    let rest = unswept_id now k carts (λ x there. live x (inr there)) in
    elim (Bool-cases (is_swept now c)) [
      | inr stays ↦ ground (arith, stays, rest)
      | inl swept ↦ elim (Bool-cases (c.id == k)) [
        | inl this ↦
            absurd (live c (inl refl) (ground (arith, this)) ((swept-IsExpiredGuest now c).0 swept))
        | inr other ↦ ground (arith, swept, other, rest)
      ]
    ]

-- A cart is left exactly if it was there and is no expired guest cart.
left_exactly :
    (now : ℕ) (c : Cart) (carts : List Cart)
    → Has c (keep_if (λ x. not (is_swept now x)) carts) ↔ (Has c carts × (¬ IsExpiredGuest now c))
left_exactly now c carts = (
  λ there.
      let kept = Has-keep_if_test (λ x. not (is_swept now x)) c carts there in
      (
        Has-keep_if (λ x. not (is_swept now x)) c carts there,
        λ expired. ground (arith, (swept-IsExpiredGuest now c).1 expired, kept),
      ),
  λ (there, live).
      keep_if-Has (λ x. not (is_swept now x)) c carts there (rw (unswept now c live) refl),
)

-- The sweep deletes the expired guest carts and nothing else. The carts that are left are exactly
-- those that are not open, or a customer's, or ordered from, or not past their expiry, and the count
-- that the sweep answers and their number make up the number there was. A cart's lines are left as
-- they were unless an expired guest cart has its identifier, and no line of such a cart is left.
pub delete_expired_guest_carts_sweeps :
    (now : ℕ) (s : Carts)
    → let (count, s') = delete_expired_guest_carts now s in
      ((c : Cart) → Has c s'.carts ↔ (Has c s.carts × (¬ IsExpiredGuest now c)))
      × (count + length s'.carts ≡ length s.carts)
      × ((k : ℕ)
          → ((c : Cart) → Has c s.carts → c.id ≡ k → ¬ IsExpiredGuest now c)
          → keep_if (in_cart k) s'.items ≡ keep_if (in_cart k) s.items)
      × ((c : Cart) → Has c s.carts → IsExpiredGuest now c → keep_if (in_cart c.id) s'.items ≡ [])
unfolding delete_expired_guest_carts
delete_expired_guest_carts_sweeps now s = (
  λ c. left_exactly now c s.carts,
  count_keep_if-split (is_swept now) s.carts,
  λ k live. keep-unswept k (swept_ids now s) s.items (unswept_id now k s.carts live),
  λ c there expired.
      drop-swept c.id (swept_ids now s) s.items
        (swept_named now c s.carts there ((swept-IsExpiredGuest now c).1 expired)),
)
