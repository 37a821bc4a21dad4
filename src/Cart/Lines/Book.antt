-- ===== src/Cart/Lines/Book.antt =====
-- A cart as its customer sees it: a map from articles to a quantity and a mark, with the requests of
-- cart.repository.ts on it, and how it is read off the table of lines.
use vp_parts.Base.{
  ℕ, ◌+◌, min, ◌≡◌, refl, inl, inr, Bool, true, false, not, ◌&&◌, Option, none, some, List, [], ◌∷◌,
  arith, ltb, leb, ◌==◌, if◌then◌else◌, get_or_else, is_none, Bool-cases, find_row, update_where,
  keep_if, count_where,
}
use vp_parts.Cart.Tables.{
  CartItem, Identity, CartLinePatch, CartError, capacity_conflict, item_not_found, max_cart_lines,
  max_cart_line_quantity, is_line,
}
use vp_parts.Cart.Lines.Operations.{CartOp, adds, updates, removes, selects, clears}

pub record BookLine : Type 0 where
  pub quantity : ℕ
  pub is_selected : Bool

abbrev pub Book : Type 0
Book = Identity → Option BookLine

abbrev pub is_same_identity : Identity → Identity → Bool
is_same_identity i j = i.brand_id == j.brand_id && i.article_number == j.article_number

abbrev pub map_line : (BookLine → BookLine) → Option BookLine → Option BookLine
map_line f none = none
map_line f (some line) = some (f line)

abbrev pub book_patched : CartLinePatch → BookLine → BookLine
book_patched patch line = record {
  quantity = get_or_else patch.quantity line.quantity;
  is_selected = get_or_else patch.is_selected line.is_selected;
}

abbrev pub held_quantity : Option BookLine → ℕ
held_quantity none = 0
held_quantity (some line) = line.quantity

abbrev pub book_added : ℕ → Option BookLine → Option BookLine
book_added quantity line = some (record {
  quantity = min max_cart_line_quantity (held_quantity line + quantity);
  is_selected = true;
})

-- The book after a request.
abbrev pub book_after : CartOp → Book → Book
book_after (adds line) book i =
    if is_same_identity line.identity i then book_added line.quantity (book i) else book i
book_after (updates j patch) book i =
    if is_same_identity j i then map_line (book_patched patch) (book i) else book i
book_after (removes j) book i = if is_same_identity j i then none else book i
book_after (selects b) book i = map_line (λ line. record line { is_selected = b }) (book i)
book_after clears book i = none

-- Why a request on an active cart with that many lines is refused.
abbrev pub book_refusal : CartOp → ℕ → Book → Option CartError
book_refusal (adds line) lines book =
    if is_none (book line.identity) && leb max_cart_lines lines
    then some capacity_conflict
    else none
book_refusal (updates i patch) lines book = if is_none (book i) then some item_not_found else none
book_refusal (removes i) lines book = none
book_refusal (selects b) lines book = none
book_refusal clears lines book = none

abbrev pub shown_line : CartItem → BookLine
shown_line item = record { quantity = item.quantity; is_selected = item.is_selected }

abbrev pub shown : Option CartItem → Option BookLine
shown none = none
shown (some item) = some (shown_line item)

-- The book of a cart.
abbrev pub book_of : ℕ → List CartItem → Book
book_of cart_id items i = shown (find_row (is_line cart_id i) items)

-- Two identities name a line of a cart alike exactly if they are the same.
pub is_line-same :
    (k : ℕ) (i j : Identity) (x : CartItem)
    → is_line k i x ≡ true
    → is_line k j x ≡ is_same_identity j i
is_line-same k i j x h = ground arith

module _ {A : Type 0} (p : A → Bool) where
  pub find_row-updated :
      (q : A → Bool) (f : A → A) (xs : List A)
      → ((x : A) → p (f x) ≡ p x)
      → find_row p (update_where q f xs)
        ≡ (elim (find_row p xs) [ none ↦ none | some x ↦ some (if q x then f x else x) ])
  find_row-updated q f [] same = refl
  find_row-updated q f (x ∷ xs) same = ground (arith, find_row-updated q f xs same, same x)

  pub find_row-kept :
      (q : A → Bool) (xs : List A)
      → ((x : A) → p x ≡ true → q x ≡ true)
      → find_row p (keep_if q xs) ≡ find_row p xs
  find_row-kept q [] within = refl
  find_row-kept q (x ∷ xs) within = elim (Bool-cases (p x)) [
    | inl e ↦ ground (arith, e, within x e, find_row-kept q xs within)
    | inr e ↦ ground (arith, e, find_row-kept q xs within)
  ]

  pub find_row-dropped :
      (q : A → Bool) (xs : List A)
      → ((x : A) → p x ≡ true → q x ≡ false)
      → find_row p (keep_if q xs) ≡ none
  find_row-dropped q [] apart = refl
  find_row-dropped q (x ∷ xs) apart = elim (Bool-cases (p x)) [
    | inl e ↦ ground (arith, e, apart x e, find_row-dropped q xs apart)
    | inr e ↦ ground (arith, e, find_row-dropped q xs apart)
  ]

  pub count-found_iff : (xs : List A) → ltb 0 (count_where p xs) ≡ not (is_none (find_row p xs))
  count-found_iff [] = refl
  count-found_iff (x ∷ xs) = ground (arith, count-found_iff xs)
