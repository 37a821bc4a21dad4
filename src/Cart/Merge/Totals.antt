-- ===== src/Cart/Merge/Totals.antt =====
-- How many of an article a merge leaves, and when it drops a line.
use vp_parts.Base.{
  ℕ, ◌+◌, ◌≤◌, min, ◌≡◌, refl, sym, subst, ◌⊎◌, inl, inr, Bool, true, false, List, [], ◌∷◌, ◌++◌,
  arith, leb, if◌then◌else◌, Bool-cases, length, All, length-append, insert_sorted, sort_by,
  update_where, any_row, length-update_where,
}
use vp_parts.Cart.Tables.{Identity, max_cart_lines, max_cart_line_quantity}
use vp_parts.Cart.Merge.{StoredLine, CartMergeResult, raise_by}
use vp_parts.Cart.Merge.Index.{
  has_key, UniqueKeys, update-absent, UniqueKeys-update, UniqueKeys-append,
}
use vp_parts.Cart.Merge.Reference.{merge_line_by_key, merge_by_key, raise_by-identity}

-- How many of an article some lines ask for.
abbrev pub total_of : Identity → List StoredLine → ℕ
total_of k [] = 0
total_of k (x ∷ xs) = (if has_key k x then x.quantity else 0) + total_of k xs

abbrev pub IsLine : StoredLine → Type 0
IsLine x = (1 ≤ x.quantity) × (x.quantity ≤ max_cart_line_quantity)

raise_by-key :
    (k : Identity) (line held : StoredLine)
    → has_key line.identity held ≡ true
    → has_key k (raise_by held line) ≡ has_key k held
unfolding raise_by
raise_by-key k line held h = ground arith

pub any_row-raise :
    (k : Identity) (line : StoredLine) (xs : List StoredLine)
    → any_row (has_key k) (update_where (has_key line.identity) (λ held. raise_by held line) xs)
      ≡ any_row (has_key k) xs
any_row-raise k line [] = refl
any_row-raise k line (x ∷ xs) = elim (Bool-cases (has_key line.identity x)) [
  | inl e ↦ ground (arith, any_row-raise k line xs, raise_by-key k line x e)
  | inr e ↦ ground (arith, any_row-raise k line xs)
]

total-absent :
    (k : Identity) (xs : List StoredLine) → any_row (has_key k) xs ≡ false → total_of k xs ≡ 0
total-absent k [] h = refl
total-absent k (x ∷ xs) h = ground (arith, total-absent k xs)

total-append :
    (k : Identity) (xs ys : List StoredLine) → total_of k (xs ++ ys) ≡ total_of k xs + total_of k ys
total-append k [] ys = omega arith
total-append k (x ∷ xs) ys = omega (arith, total-append k xs ys)

module _ (goes_before : StoredLine → StoredLine → Bool) (k : Identity) where
  total-insert_sorted :
      (x : StoredLine) (xs : List StoredLine)
      → total_of k (insert_sorted goes_before x xs)
        ≡ (if has_key k x then x.quantity else 0) + total_of k xs
  total-insert_sorted x [] = refl
  total-insert_sorted x (y ∷ ys) = ground (arith, total-insert_sorted x ys)

  pub total-sort_by : (xs : List StoredLine) → total_of k (sort_by goes_before xs) ≡ total_of k xs
  total-sort_by [] = refl
  total-sort_by (x ∷ xs) =
      omega (arith, total-insert_sorted x (sort_by goes_before xs), total-sort_by xs)

-- A line's article is there once, so the total is the line's quantity.
pub total-le :
    (k : Identity) (xs : List StoredLine)
    → UniqueKeys xs
    → All IsLine xs
    → total_of k xs ≤ max_cart_line_quantity
total-le k [] u h = omega arith
total-le k (x ∷ xs) u h = elim (Bool-cases (has_key k x)) [
  | inr other ↦ ground (arith, total-le k xs u.1 h.1)
  | inl this ↦
      let same : x.identity ≡ k = ground arith in
      let once : any_row (has_key k) xs ≡ false =
        subst (λ j. any_row (has_key j) xs ≡ false) same u.0 in
      ground (arith, total-absent k xs once, h.0)
]

module _ (line : StoredLine) where
  abbrev raise : List StoredLine → List StoredLine
  raise = update_where (has_key line.identity) (λ held. raise_by held line)

  total-raise :
      (xs : List StoredLine)
      → UniqueKeys xs
      → any_row (has_key line.identity) xs ≡ true
      → total_of line.identity (raise xs)
        ≡ min max_cart_line_quantity (total_of line.identity xs + line.quantity)
  unfolding raise_by
  total-raise [] u h = absurd (ground (arith, h))
  total-raise (x ∷ xs) u h = elim (Bool-cases (has_key line.identity x)) [
    | inr other ↦ ground (arith, total-raise xs u.1)
    | inl this ↦
        let same : x.identity ≡ line.identity = ground arith in
        let once : any_row (has_key line.identity) xs ≡ false =
          subst (λ j. any_row (has_key j) xs ≡ false) same u.0 in
        ground (
          arith,
          total-absent line.identity xs once,
          update-absent line.identity (λ held. raise_by held line) xs once,
        )
  ]

  total-raise_other :
      (k : Identity) (xs : List StoredLine)
      → has_key k line ≡ false
      → total_of k (raise xs) ≡ total_of k xs
  unfolding raise_by
  total-raise_other k [] other = refl
  total-raise_other k (x ∷ xs) other = elim (Bool-cases (has_key line.identity x)) [
    | inr no_row ↦ ground (arith, total-raise_other k xs other)
    | inl this ↦ ground (arith, total-raise_other k xs other)
  ]

  round-UniqueKeys :
      (r : CartMergeResult) → UniqueKeys r.lines → UniqueKeys (merge_line_by_key r line).lines
  round-UniqueKeys r u = ground (
    arith,
    UniqueKeys-update (has_key line.identity) (λ held. raise_by held line) r.lines
        (λ x h. raise_by-identity line.identity line x refl h) u,
    UniqueKeys-append r.lines line,
  )

-- An article that a full cart does not hold stays out of it.
stays_out :
    (k : Identity) (r : CartMergeResult) (lines : List StoredLine)
    → any_row (has_key k) r.lines ≡ false
    → leb max_cart_lines (length r.lines) ≡ true
    → any_row (has_key k) (merge_by_key r lines).lines ≡ false
stays_out k r [] absent full = absent
stays_out k r (line ∷ lines) absent full =
    stays_out k (merge_line_by_key r line) lines
      (ground (arith, absent, full, any_row-raise k line r.lines))
      (ground (
        arith,
        absent,
        full,
        length-update_where (has_key line.identity) (λ held. raise_by held line) r.lines,
        length-append r.lines (line ∷ []),
      ))

-- What one line makes of an article's total, unless the article is dropped.
round-total :
    (k : Identity) (r : CartMergeResult) (line : StoredLine)
    → UniqueKeys r.lines
    → IsLine line
    → total_of k r.lines ≤ max_cart_line_quantity
    → ((any_row (has_key k) r.lines ≡ false) × (leb max_cart_lines (length r.lines) ≡ true))
      ⊎ (total_of k (merge_line_by_key r line).lines
          ≡ min max_cart_line_quantity
              (total_of k r.lines + (if has_key k line then line.quantity else 0)))
round-total k r line u h bound = elim (Bool-cases (has_key k line)) [
  | inr other ↦
      inr
        (ground (arith, total-raise_other line k r.lines other, total-append k r.lines (line ∷ [])))
  | inl this ↦
      let same : line.identity ≡ k = ground arith in
      subst
        (λ (j : Identity).
          ((any_row (has_key j) r.lines ≡ false) × (leb max_cart_lines (length r.lines) ≡ true))
          ⊎ (total_of j (merge_line_by_key r line).lines
              ≡ min max_cart_line_quantity
                  (total_of j r.lines + (if has_key j line then line.quantity else 0))))
        same (own (subst (λ j. total_of j r.lines ≤ max_cart_line_quantity) (sym same) bound))
]
  where
    own :
        total_of line.identity r.lines ≤ max_cart_line_quantity
        → ((any_row (has_key line.identity) r.lines ≡ false)
            × (leb max_cart_lines (length r.lines) ≡ true))
          ⊎ (total_of line.identity (merge_line_by_key r line).lines
              ≡ min max_cart_line_quantity (
                  total_of line.identity r.lines
                  + (if has_key line.identity line then line.quantity else 0)))
    own small = elim (Bool-cases (any_row (has_key line.identity) r.lines)) [
      | inl there ↦ inr (ground (arith, there, total-raise line r.lines u there))
      | inr absent ↦ elim (Bool-cases (leb max_cart_lines (length r.lines))) [
        | inl full ↦ inl (absent, full)
        | inr room ↦ inr (
            ground (
              arith,
              absent,
              room,
              total-append line.identity r.lines (line ∷ []),
              total-absent line.identity r.lines absent,
              h,
            ))
      ]
    ]

-- An article that the result holds is there as often as the lines ask for together, within the
-- maximum of a line.
pub merge_total :
    (k : Identity) (r : CartMergeResult) (lines : List StoredLine)
    → UniqueKeys r.lines
    → All IsLine lines
    → total_of k r.lines ≤ max_cart_line_quantity
    → any_row (has_key k) (merge_by_key r lines).lines ≡ true
    → total_of k (merge_by_key r lines).lines
      ≡ min max_cart_line_quantity (total_of k r.lines + total_of k lines)
merge_total k r [] u h bound there = ground (arith, bound)
merge_total k r (line ∷ lines) u h bound there = elim (round-total k r line u h.0 bound) [
  | inl (absent, full) ↦ absurd (ground (arith, there, stays_out k r (line ∷ lines) absent full))
  | inr once ↦
      let rest =
        merge_total k (merge_line_by_key r line) lines (round-UniqueKeys line r u) h.1
          (ground (arith, once)) there in
      ground (arith, once, rest)
]

-- A line is dropped only when the cart is full.
pub merge_full :
    (r : CartMergeResult) (lines : List StoredLine)
    → (r.dropped ≡ []) ⊎ (max_cart_lines ≤ length r.lines)
    → ((merge_by_key r lines).dropped ≡ []) ⊎ (max_cart_lines ≤ length (merge_by_key r lines).lines)
merge_full r [] h = h
merge_full r (line ∷ lines) h = merge_full (merge_line_by_key r line) lines (
    ground (
      arith,
      h,
      length-update_where (has_key line.identity) (λ held. raise_by held line) r.lines,
      length-append r.lines (line ∷ []),
    ))
