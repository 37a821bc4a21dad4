-- ===== src/Cart/Lines/Refinement.antt =====
-- That the line operations of cart.repository.ts do to a cart's book what their requests say.
use vp_parts.Base.{
  ℕ, ◌+◌, ◌<◌, min, ◌≡◌, refl, ap, ◌∙◌, inl, inr, Bool, true, some, List, [], ◌∷◌, ◌++◌, arith, ltb,
  leb, if◌then◌else◌, ltb→lt, Bool-cases, Option-cases, find_row, update_where, count_where,
  find_row-append, find_row-append_found,
}
use vp_parts.Cart.Tables.{
  CartItem, Carts, LockedCart, Identity, CartLineInput, max_cart_lines, max_cart_line_quantity,
  is_active, in_cart, is_line, lock_cart,
}
use vp_parts.Cart.Lines.{
  add_line, update_line, remove_line, set_all_selected, clear, assert_room_for_line, upsert_line,
  clamp_line, new_item, capped, adding, patching, removing, selecting, emptying,
}
use vp_parts.Cart.Lines.Adding.{over_full, raised, upsert_line-raise, upsert_line-insert}
use vp_parts.Cart.Lines.Operations.{CartOp, adds, updates, removes, selects, clears, apply_op}
use vp_parts.Cart.Lines.Book.{
  BookLine, is_same_identity, map_line, book_after, shown_line, book_of, is_line-same,
  count-found_iff,
}
use vp_parts.Cart.Lines.Simulation.{
  Simulates, mutate-Simulates, book_of-updated, patching-Simulates, removing-Simulates,
  selecting-Simulates, emptying-Simulates,
}

same_identity_eq : (i j : Identity) → is_same_identity i j ≡ true → i ≡ j
same_identity_eq i j h = ground arith

module _ (k now : ℕ) (line : CartLineInput) (s : Carts) (i : Identity) where
  abbrev same : Bool
  same = is_same_identity line.identity i

  abbrev clamped : BookLine → BookLine
  clamped l = if same then record l { quantity = min max_cart_line_quantity l.quantity } else l

  abbrev increased : BookLine → BookLine
  increased l =
      if same then record { quantity = l.quantity + line.quantity; is_selected = true } else l

  book_of-clamped :
      (xs : List CartItem)
      → book_of k (update_where (over_full k line.identity) capped xs) i
        ≡ map_line clamped (book_of k xs i)
  book_of-clamped xs =
      book_of-updated k i (over_full k line.identity) capped clamped xs (λ x. refl)
        (λ x h. ground (arith, is_line-same k i line.identity x h))

  book_of-increased :
      (xs : List CartItem)
      → book_of k (update_where (is_line k line.identity) (raised k now line s) xs) i
        ≡ map_line increased (book_of k xs i)
  unfolding raised
  book_of-increased xs =
      book_of-updated k i (is_line k line.identity) (raised k now line s) increased xs (λ x. refl)
        (λ x h. ground (arith, is_line-same k i line.identity x h))

  -- With the line in the cart.
  raise-book :
      0 < count_where (is_line k line.identity) s.items
      → book_of k (clamp_line k line.identity (upsert_line k now line s)).items i
        ≡ book_after (adds line) (book_of k s.items) i
  raise-book held =
      let once = update_where (is_line k line.identity) (raised k now line s) s.items in
      let eq =
        ap (λ t. book_of k t.items i) (upsert_line-raise k now line s held)
        ∙ book_of-clamped once
        ∙ ap (map_line clamped) (book_of-increased s.items) in
      eq ∙ elim (Bool-cases same) [
        | inl e ↦
            let there = count-found_iff (is_line k line.identity) s.items in
            let j = ap (λ z. find_row (is_line k z) s.items) (same_identity_eq line.identity i e) in
            elim (Option-cases (find_row (is_line k i) s.items)) [
              | inl f ↦ absurd (ground (arith, f, j, there, held))
              | inr (x, f) ↦ ground (arith, e, f)
            ]
        | inr e ↦ elim (Option-cases (find_row (is_line k i) s.items)) [
          | inl f ↦ ground (arith, e, f)
          | inr (x, f) ↦ ground (arith, e, f)
        ]
      ]

  new_item-shown :
      shown_line (new_item k now line) ≡ record { quantity = line.quantity; is_selected = true }
  unfolding new_item
  new_item-shown = refl

  new_item-named : is_line k i (new_item k now line) ≡ same
  unfolding new_item
  new_item-named = ground arith

  -- Without it, the new line comes last.
  insert-book :
      count_where (is_line k line.identity) s.items ≡ 0
      → book_of k (clamp_line k line.identity (upsert_line k now line s)).items i
        ≡ book_after (adds line) (book_of k s.items) i
  insert-book absent =
      let more = s.items ++ new_item k now line ∷ [] in
      let eq =
        ap (λ t. book_of k t.items i) (upsert_line-insert k now line s absent)
        ∙ book_of-clamped more in
      eq ∙ elim (Option-cases (find_row (is_line k i) s.items)) [
        | inl f ↦
            let last = find_row-append (is_line k i) s.items (new_item k now line ∷ []) f in
            ground (arith, f, last, new_item-shown, new_item-named)
        | inr (x, f) ↦
            let first =
              find_row-append_found (is_line k i) x s.items (new_item k now line ∷ []) f in
            elim (Bool-cases same) [
              | inl e ↦
                  let there = count-found_iff (is_line k line.identity) s.items in
                  let j =
                    ap (λ z. find_row (is_line k z) s.items) (same_identity_eq line.identity i e) in
                  absurd (ground (arith, f, j, there, absent))
              | inr e ↦ ground (arith, e, f, first)
            ]
      ]

adding-Simulates :
    (k now : ℕ) (line : CartLineInput) (s : Carts) → Simulates k (adds line) s (adding k now line s)
unfolding assert_room_for_line
adding-Simulates k now line s =
    let there = count-found_iff (is_line k line.identity) s.items in
    elim (Bool-cases (ltb 0 (count_where (is_line k line.identity) s.items))) [
      | inl held ↦
          let after = λ (i : Identity). raise-book k now line s i (ltb→lt 0 _ held) in
          rw held (ground (arith, there, held), after)
      | inr absent ↦ elim (Bool-cases (leb max_cart_lines (count_where (in_cart k) s.items))) [
        | inl full ↦ rw (absent, full) (ground (arith, there, absent, full))
        | inr room ↦
            let after = λ (i : Identity). insert-book k now line s i (ground (arith, absent)) in
            rw (absent, room) (ground (arith, there, absent, room), after)
      ]
    ]

-- The tables refine a book: on an active cart, an operation on its lines either leaves the cart with
-- the book that the request makes of its book, and the request meets no refusal, or is the error
-- that the request meets. A book maps each article to its quantity and mark: adding raises the
-- quantity up to the maximum of a line and marks it, and is refused for a new article when the cart
-- is full; a patch sets what it sends and is refused for an article that is not there; and removing,
-- marking and clearing always go through.
pub apply_op-Simulates :
    (k now : ℕ) (op : CartOp) (s : Carts) (c : LockedCart)
    → lock_cart k s ≡ some c
    → is_active c.status ≡ true
    → Simulates k op s (apply_op k now op s)
unfolding apply_op add_line update_line remove_line set_all_selected clear
apply_op-Simulates k now (adds line) s c e on =
    mutate-Simulates k now (adds line) (adding k now line) s c e on (adding-Simulates k now line s)
apply_op-Simulates k now (updates i patch) s c e on =
    mutate-Simulates k now (updates i patch) (patching k i patch) s c e on
      (patching-Simulates k i patch s)
apply_op-Simulates k now (removes i) s c e on =
    mutate-Simulates k now (removes i) (removing k i) s c e on (removing-Simulates k i s)
apply_op-Simulates k now (selects b) s c e on =
    mutate-Simulates k now (selects b) (selecting k b) s c e on (selecting-Simulates k b s)
apply_op-Simulates k now clears s c e on =
    mutate-Simulates k now clears (emptying k) s c e on (emptying-Simulates k s)
