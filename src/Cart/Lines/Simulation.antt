-- ===== src/Cart/Lines/Simulation.antt =====
-- What the changes of lines in cart.repository.ts do to a cart's book, but for the adding of a line.
use vp_parts.Base.{
  ℕ, ◌≡◌, refl, ◌∙◌, inl, inr, Bool, true, false, not, Option, none, some, List, arith,
  if◌then◌else◌, Bool-cases, Option-cases, find_row, update_where, count_where, find_row-Has,
}
use vp_parts.Cart.Tables.{
  CartItem, Carts, LockedCart, Identity, CartLinePatch, Result, ok, err, is_active, in_cart,
  is_line, lock_cart, update_cart, guest_expiry, touch, ◌>>=◌,
}
use vp_parts.Cart.Lines.{mutate, patched, patching, removing, selecting, emptying, selected}
use vp_parts.Cart.Lines.Operations.{CartOp, updates, removes, selects, clears}
use vp_parts.Cart.Lines.Book.{
  BookLine, is_same_identity, map_line, book_patched, book_after, book_refusal, shown_line, book_of,
  is_line-same, find_row-updated, find_row-kept, find_row-dropped, count-found_iff,
}

-- A result does to the cart's book what the request says, or is the error that the request meets.
abbrev pub Simulates : ℕ → CartOp → Carts → Result Carts → Type 0
Simulates k op s (ok s') =
    (book_refusal op (count_where (in_cart k) s.items) (book_of k s.items) ≡ none)
    × ((i : Identity) → book_of k s'.items i ≡ book_after op (book_of k s.items) i)
Simulates k op s (err e) =
    book_refusal op (count_where (in_cart k) s.items) (book_of k s.items) ≡ some e

pub mutate-Simulates :
    (k now : ℕ) (op : CartOp) (change : Carts → Result Carts) (s : Carts) (c : LockedCart)
    → lock_cart k s ≡ some c
    → is_active c.status ≡ true
    → Simulates k op s (change s)
    → Simulates k op s (mutate k now change s)
unfolding mutate
mutate-Simulates k now op change s c e on kept = rw (e, mutate) (rw on (step (change s) kept))
  where
    step :
        (r : Result Carts)
        → Simulates k op s r
        → Simulates k op s (r >>= (λ s'. ok (update_cart k (touch (guest_expiry now)) s')))
    step (ok s') v = v
    step (err e) v = v

-- An update of lines, by what it does to the shown line of the article.
pub book_of-updated :
    (k : ℕ) (i : Identity) (q : CartItem → Bool) (f : CartItem → CartItem)
    → (g : BookLine → BookLine) (xs : List CartItem)
    → ((x : CartItem) → is_line k i (f x) ≡ is_line k i x)
    → ((x : CartItem)
        → is_line k i x ≡ true
        → shown_line (if q x then f x else x) ≡ g (shown_line x))
    → book_of k (update_where q f xs) i ≡ map_line g (book_of k xs i)
book_of-updated k i q f g xs same shows = elim (Option-cases (find_row (is_line k i) xs)) [
  | inl e ↦ ground (arith, e, find_row-updated (is_line k i) q f xs same)
  | inr (x, e) ↦ ground (
    arith,
    e,
    find_row-updated (is_line k i) q f xs same,
    shows x (find_row-Has (is_line k i) x xs e).1,
  )
]

map_line-if :
    (b : Bool) (g : BookLine → BookLine) (line : Option BookLine)
    → map_line (λ l. if b then g l else l) line ≡ (if b then map_line g line else line)
map_line-if true g none = refl
map_line-if true g (some l) = refl
map_line-if false g none = refl
map_line-if false g (some l) = refl

pub patching-Simulates :
    (k : ℕ) (j : Identity) (patch : CartLinePatch) (s : Carts)
    → Simulates k (updates j patch) s (patching k j patch s)
patching-Simulates k j patch s = elim (Option-cases (find_row (is_line k j) s.items)) [
  | inl e ↦ ground (arith, e, count-found_iff (is_line k j) s.items)
  | inr (x, e) ↦
      let after : (i : Identity)
          → book_of k (update_where (is_line k j) (patched patch) s.items) i ≡ (
              if is_same_identity j i
              then map_line (book_patched patch) (book_of k s.items i)
              else book_of k s.items i) =
        λ i.
          book_of-updated k i (is_line k j) (patched patch)
            (λ l. if is_same_identity j i then book_patched patch l else l) s.items (λ x. refl)
            (λ x h. ground (arith, is_line-same k i j x h))
          ∙ map_line-if (is_same_identity j i) (book_patched patch) (book_of k s.items i) in
      ground (arith, e, count-found_iff (is_line k j) s.items, after)
]

pub removing-Simulates :
    (k : ℕ) (j : Identity) (s : Carts) → Simulates k (removes j) s (removing k j s)
removing-Simulates k j s = (
  refl,
  λ i. elim (Bool-cases (is_same_identity j i)) [
    | inl e ↦
        let gone =
          find_row-dropped (is_line k i) (λ x. not (is_line k j x)) s.items
            (λ x h. ground (arith, is_line-same k i j x h, e)) in
        ground (arith, e, gone)
    | inr e ↦
        let left =
          find_row-kept (is_line k i) (λ x. not (is_line k j x)) s.items
            (λ x h. ground (arith, is_line-same k i j x h, e)) in
        ground (arith, e, left)
  ],
)

in_cart-line : (k : ℕ) (i : Identity) (x : CartItem) → is_line k i x ≡ true → in_cart k x ≡ true
in_cart-line k i x h = ground arith

pub selecting-Simulates :
    (k : ℕ) (b : Bool) (s : Carts) → Simulates k (selects b) s (selecting k b s)
selecting-Simulates k b s = (
  refl,
  λ i.
      book_of-updated k i (in_cart k) (selected b) (λ l. record l { is_selected = b }) s.items
        (λ x. refl) (λ x h. ground (arith, in_cart-line k i x h)),
)

pub emptying-Simulates : (k : ℕ) (s : Carts) → Simulates k clears s (emptying k s)
emptying-Simulates k s = (
  refl,
  λ i.
      let gone =
        find_row-dropped (is_line k i) (λ x. not (in_cart k x)) s.items
          (λ x h. ground (arith, in_cart-line k i x h)) in
      ground (arith, gone),
)
