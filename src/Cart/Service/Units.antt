-- ===== src/Cart/Service/Units.antt =====
-- How many units of an article a cart holds, in the tables and in the lines that are read from them
-- and merged.
use vp_parts.Base.{
  ℕ, ◌+◌, ◌≤◌, ◌≡◌, refl, ◌∙◌, Bool, ◌&&◌, List, [], ◌∷◌, map, arith, ltb, ◌==◌, if◌then◌else◌,
  length, All, length-map, keep_if, count_where, any_row, length-keep_if, All-keep_if, AllPairs,
  insert_sorted, sort_by, count-sort_by, length-sort_by, All-sort_by,
}
use vp_parts.Cart.Tables.{CartItem, Carts, Identity, max_cart_lines, in_cart, is_line, items_of}
use vp_parts.Cart.Lines.Valid.{IsQuantity, IsValid}
use vp_parts.Cart.Lifecycle.Uniting.{IsStored}
use vp_parts.Cart.Merge.{StoredLine}
use vp_parts.Cart.Merge.Index.{has_key, UniqueKeys}
use vp_parts.Cart.Merge.Totals.{IsLine, total_of}
use vp_parts.Cart.Service.{to_stored_line, to_merged_line}

abbrev pub holds : ℕ → Identity → List CartItem → Bool
holds cart_id i items = any_row (is_line cart_id i) items

abbrev pub units : ℕ → Identity → List CartItem → ℕ
units cart_id i [] = 0
units cart_id i (x ∷ xs) = (if is_line cart_id i x then x.quantity else 0) + units cart_id i xs

-- The cart's rows as they are read for a merge.
abbrev pub stored_lines : ℕ → Carts → List StoredLine
stored_lines cart_id s = map to_stored_line (items_of cart_id s)

any_row-count {ℓ} :
    {A : Type ℓ} (p : A → Bool) (xs : List A) → any_row p xs ≡ ltb 0 (count_where p xs)
any_row-count p [] = refl
any_row-count p (x ∷ xs) = ground (arith, any_row-count p xs)

UniqueKeys-count :
    (lines : List StoredLine)
    → ((i : Identity) → count_where (has_key i) lines ≤ 1)
    → UniqueKeys lines
UniqueKeys-count [] h = tt
UniqueKeys-count (x ∷ xs) h = (
  ground (arith, h x.identity, any_row-count (has_key x.identity) xs),
  UniqueKeys-count xs (λ i. omega (arith, h i)),
)

module _ (cart_id : ℕ) (i : Identity) where
  count-read :
      (items : List CartItem)
      → count_where (has_key i) (map to_stored_line items)
        ≡ count_where
            (λ x. (x.brand_id == i.brand_id) && (x.article_number == i.article_number))
            items
  unfolding to_stored_line
  count-read [] = refl
  count-read (x ∷ xs) = ground (arith, count-read xs)

  count-kept :
      (items : List CartItem)
      → count_where
          (λ x. (x.brand_id == i.brand_id) && (x.article_number == i.article_number))
          (keep_if (in_cart cart_id) items)
        ≡ count_where (is_line cart_id i) items
  count-kept [] = refl
  count-kept (x ∷ xs) = ground (arith, count-kept xs)

  pub count-stored :
      (s : Carts)
      → count_where (has_key i) (stored_lines cart_id s) ≡ count_where (is_line cart_id i) s.items
  unfolding items_of
  count-stored s =
      count-read (items_of cart_id s)
      ∙ count-sort_by (λ a b. ltb a.added_at b.added_at)
          (λ x. (x.brand_id == i.brand_id) && (x.article_number == i.article_number))
          (keep_if (in_cart cart_id) s.items)
      ∙ count-kept s.items

  pub holds-stored :
      (s : Carts) → any_row (has_key i) (stored_lines cart_id s) ≡ holds cart_id i s.items
  holds-stored s = ground (
    arith,
    any_row-count (has_key i) (stored_lines cart_id s),
    any_row-count (is_line cart_id i) s.items,
    count-stored s,
  )

  total-inserted :
      (x : CartItem) (xs : List CartItem)
      → total_of i (map to_stored_line (insert_sorted (λ a b. ltb a.added_at b.added_at) x xs))
        ≡ total_of i (map to_stored_line (x ∷ xs))
  unfolding to_stored_line
  total-inserted x [] = refl
  total-inserted x (y ∷ ys) = ground (arith, total-inserted x ys)

  total-sorted :
      (xs : List CartItem)
      → total_of i (map to_stored_line (sort_by (λ a b. ltb a.added_at b.added_at) xs))
        ≡ total_of i (map to_stored_line xs)
  unfolding to_stored_line
  total-sorted [] = refl
  total-sorted (x ∷ xs) =
      omega
        (arith, total-inserted x (sort_by (λ a b. ltb a.added_at b.added_at) xs), total-sorted xs)

  total-kept :
      (xs : List CartItem)
      → total_of i (map to_stored_line (keep_if (in_cart cart_id) xs)) ≡ units cart_id i xs
  unfolding to_stored_line
  total-kept [] = refl
  total-kept (x ∷ xs) = ground (arith, total-kept xs)

  pub total-stored : (s : Carts) → total_of i (stored_lines cart_id s) ≡ units cart_id i s.items
  unfolding items_of
  total-stored s = total-sorted (keep_if (in_cart cart_id) s.items) ∙ total-kept s.items

  -- The cart's own rows decide.
  pub units-own :
      (xs : List CartItem) → units cart_id i (keep_if (in_cart cart_id) xs) ≡ units cart_id i xs
  units-own [] = refl
  units-own (x ∷ xs) = ground (arith, units-own xs)

  pub holds-own :
      (xs : List CartItem) → holds cart_id i (keep_if (in_cart cart_id) xs) ≡ holds cart_id i xs
  holds-own [] = refl
  holds-own (x ∷ xs) = ground (arith, holds-own xs)

  -- Merged lines as they are stored.
  pub units-merged :
      (lines : List StoredLine) (xs : List CartItem)
      → AllPairs (IsStored cart_id) (map to_merged_line lines) xs
      → units cart_id i xs ≡ total_of i lines
  unfolding to_merged_line
  units-merged [] [] h = refl
  units-merged [] (x ∷ xs) h = absurd h
  units-merged (line ∷ lines) [] h = absurd h
  units-merged (line ∷ lines) (x ∷ xs) h = ground (arith, units-merged lines xs h.1, h.0)

  pub holds-merged :
      (lines : List StoredLine) (xs : List CartItem)
      → AllPairs (IsStored cart_id) (map to_merged_line lines) xs
      → holds cart_id i xs ≡ any_row (has_key i) lines
  unfolding to_merged_line
  holds-merged [] [] h = refl
  holds-merged [] (x ∷ xs) h = absurd h
  holds-merged (line ∷ lines) [] h = absurd h
  holds-merged (line ∷ lines) (x ∷ xs) h = ground (arith, holds-merged lines xs h.1, h.0)

pub length-merged :
    (cart_id : ℕ) (lines : List StoredLine) (xs : List CartItem)
    → AllPairs (IsStored cart_id) (map to_merged_line lines) xs
    → length xs ≡ length lines
length-merged cart_id [] [] h = refl
length-merged cart_id [] (x ∷ xs) h = absurd h
length-merged cart_id (line ∷ lines) [] h = absurd h
length-merged cart_id (line ∷ lines) (x ∷ xs) h = omega (arith, length-merged cart_id lines xs h.1)

read-IsLine : (xs : List CartItem) → All IsQuantity xs → All IsLine (map to_stored_line xs)
unfolding to_stored_line
read-IsLine [] h = tt
read-IsLine (x ∷ xs) h = (h.0, read-IsLine xs h.1)

-- What is read of a cart in valid tables may be merged.
pub stored-IsMergeable :
    (cart_id : ℕ) (s : Carts)
    → IsValid s
    → UniqueKeys (stored_lines cart_id s)
      × (length (stored_lines cart_id s) ≤ max_cart_lines)
      × All IsLine (stored_lines cart_id s)
unfolding items_of
stored-IsMergeable cart_id s v =
    let older = λ (a b : CartItem). ltb a.added_at b.added_at in
    let own = keep_if (in_cart cart_id) s.items in
    (
      UniqueKeys-count (stored_lines cart_id s)
          (λ i. omega (arith, v.unique cart_id i, count-stored cart_id i s)),
      omega (
        arith,
        length-map (items_of cart_id s) to_stored_line,
        length-sort_by older own,
        length-keep_if (in_cart cart_id) s.items,
        v.room cart_id,
      ),
      read-IsLine (items_of cart_id s) (
          All-sort_by older IsQuantity own
            (All-keep_if IsQuantity (in_cart cart_id) s.items v.quantities)),
    )
