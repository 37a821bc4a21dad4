-- ===== src/Cart/Merge/Union.antt =====
-- What a merge guarantees: no article is lost unreported, units add up, and the result is a cart.
use vp_parts.Base.{
  ◌+◌, ◌≤◌, min, ◌≡◌, refl, subst, ◌⊎◌, inl, inr, Bool, true, ◌||◌, List, [], ◌∷◌, ◌++◌, arith, ltb,
  length, All, Has, length-append, All-append, any_row, length-update_where, All-update_where,
  All-sort_by, sort_by-Has,
}
use vp_parts.Cart.Tables.{Identity, max_cart_lines, max_cart_line_quantity}
use vp_parts.Cart.Merge.{
  StoredLine, CartMergeResult, same_key, raise_by, oldest_first, merge_cart_lines,
}
use vp_parts.Cart.Merge.Index.{has_key, UniqueKeys}
use vp_parts.Cart.Merge.Totals.{
  IsLine, total_of, any_row-raise, total-sort_by, total-le, merge_total, merge_full,
}
use vp_parts.Cart.Merge.Reference.{
  merge_line_by_key, merge_by_key, merge_cart_lines-eq-merge_by_key,
}

abbrev pub lists_key : Identity → CartMergeResult → Bool
lists_key k r = any_row (has_key k) r.lines || any_row (same_key k) r.dropped

any_row-append {ℓ} :
    {A : Type ℓ} (p : A → Bool) (xs ys : List A)
    → any_row p (xs ++ ys) ≡ any_row p xs || any_row p ys
any_row-append p [] ys = refl
any_row-append p (x ∷ xs) ys = ground (arith, any_row-append p xs ys)

same_key_refl : (k : Identity) → same_key k k ≡ true
same_key_refl k = ground arith

-- A round keeps what is listed, and lists the incoming line.
round_keeps :
    (k : Identity) (r : CartMergeResult) (line : StoredLine)
    → lists_key k r ≡ true
    → lists_key k (merge_line_by_key r line) ≡ true
round_keeps k r line h = ground (
  arith,
  any_row-raise k line r.lines,
  any_row-append (has_key k) r.lines (line ∷ []),
  any_row-append (same_key k) r.dropped (line.identity ∷ []),
)

round_lists :
    (r : CartMergeResult) (line : StoredLine)
    → lists_key line.identity (merge_line_by_key r line) ≡ true
round_lists r line = ground (
  arith,
  any_row-raise line.identity line r.lines,
  any_row-append (has_key line.identity) r.lines (line ∷ []),
  any_row-append (same_key line.identity) r.dropped (line.identity ∷ []),
  same_key_refl line.identity,
)

merge_keeps :
    (k : Identity) (r : CartMergeResult) (lines : List StoredLine)
    → lists_key k r ≡ true
    → lists_key k (merge_by_key r lines) ≡ true
merge_keeps k r [] h = h
merge_keeps k r (line ∷ lines) h =
    merge_keeps k (merge_line_by_key r line) lines (round_keeps k r line h)

merge_lists :
    (r : CartMergeResult) (x : StoredLine) (lines : List StoredLine)
    → Has x lines
    → lists_key x.identity (merge_by_key r lines) ≡ true
merge_lists r x [] m = absurd m
merge_lists r x (line ∷ lines) (inl e) =
    merge_keeps x.identity (merge_line_by_key r line) lines (rw e (round_lists r line))
merge_lists r x (line ∷ lines) (inr m) = merge_lists (merge_line_by_key r line) x lines m

-- Lines that were there stay in the cart.
merge_stays :
    (k : Identity) (r : CartMergeResult) (lines : List StoredLine)
    → any_row (has_key k) r.lines ≡ true
    → any_row (has_key k) (merge_by_key r lines).lines ≡ true
merge_stays k r [] h = h
merge_stays k r (line ∷ lines) h =
    merge_stays k (merge_line_by_key r line) lines
      (ground (arith, any_row-raise k line r.lines, any_row-append (has_key k) r.lines (line ∷ [])))

raised-IsLine : (line held : StoredLine) → IsLine line → IsLine held → IsLine (raise_by held line)
unfolding raise_by
raised-IsLine line held h k = (ground arith, ground arith)

merge_bounds :
    (r : CartMergeResult) (lines : List StoredLine)
    → length r.lines ≤ max_cart_lines
    → All IsLine r.lines
    → All IsLine lines
    → (length (merge_by_key r lines).lines ≤ max_cart_lines)
      × All IsLine (merge_by_key r lines).lines
merge_bounds r [] room h k = (room, h)
merge_bounds r (line ∷ lines) room h k =
    merge_bounds (merge_line_by_key r line) lines
      (ground (
        arith,
        length-update_where (has_key line.identity) (λ held. raise_by held line) r.lines,
        length-append r.lines (line ∷ []),
      ))
      (ground (
        arith,
        All-update_where IsLine (has_key line.identity) (λ held. raise_by held line) r.lines
            (λ x q _. raised-IsLine line x k.0 q) h,
        All-append IsLine r.lines (line ∷ []) h (k.0, tt),
      ))
      k.1

-- Merging two carts' lines: every article of the existing cart is in the result, and every incoming
-- one is in it or reported as dropped, which happens only when the cart is full. An article of the
-- result is there in as many units as both carts hold of it together, up to what a line may have:
-- what exceeds that is cut off. The result holds no more lines than a cart may, each with a quantity
-- that a line may have. The existing cart is within the limits and holds no article twice, and the
-- incoming lines have such quantities.
pub merge_cart_lines_union :
    (existing incoming : List StoredLine)
    → UniqueKeys existing
    → length existing ≤ max_cart_lines
    → All IsLine existing
    → All IsLine incoming
    → let merged = merge_cart_lines existing incoming in
      ((k : Identity)
        → any_row (has_key k) existing ≡ true
        → any_row (has_key k) merged.lines ≡ true)
      × ((x : StoredLine) → Has x incoming → lists_key x.identity merged ≡ true)
      × ((merged.dropped ≡ []) ⊎ (max_cart_lines ≤ length merged.lines))
      × ((k : Identity)
          → any_row (has_key k) merged.lines ≡ true
          → total_of k merged.lines
            ≡ min max_cart_line_quantity (total_of k existing + total_of k incoming))
      × (length merged.lines ≤ max_cart_lines)
      × All IsLine merged.lines
unfolding oldest_first
merge_cart_lines_union existing incoming u room h k =
    let start : CartMergeResult = record { lines = existing; dropped = [] } in
    let older = λ (a b : StoredLine). ltb a.added_at b.added_at in
    let sorted = oldest_first incoming in
    let valid = All-sort_by older IsLine incoming k in
    let rest = merge_bounds start sorted room h valid in
    rw (merge_cart_lines-eq-merge_by_key existing incoming u) (
      λ j there. merge_stays j start sorted there,
      λ x m. merge_lists start x sorted (sort_by-Has older x incoming m),
      merge_full start sorted (inl refl),
      λ j there.
          subst
            (λ t.
              total_of j (merge_by_key start sorted).lines
              ≡ min max_cart_line_quantity (total_of j existing + t))
            (total-sort_by older j incoming)
            (merge_total j start sorted u valid (total-le j existing u h) there),
      rest.0,
      rest.1,
    )
