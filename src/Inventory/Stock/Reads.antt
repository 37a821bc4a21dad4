-- ===== src/Inventory/Stock/Reads.antt =====
-- That the batch read of supplier-stock.repository.ts and autoparts.repository.ts answers for each
-- article what the read of the article alone does.
use vp_parts.Base.{
  ℕ, ◌≡◌, sym, ap, ◌∙◌, inl, inr, true, false, List, [], ◌∷◌, ◌++◌, arith, ℕ_discrete, ◌==◌,
  if◌then◌else◌, get_or_else, Bool-cases, contains, keep_if, keep_if-keep_if, append-nil,
  append_one-append,
}
use vp_parts.Inventory.Stock.{
  Group, find_by_article, add_to_group, group_rows, find_by_articles, rows_of,
}

module _ {A : Type 0} (article_of : A → ℕ) where
  abbrev grouped : List (Group A) → ℕ → List A
  grouped groups k = get_or_else (rows_of groups k) []

  grouped-add_to_group :
      (row : A) (groups : List (Group A)) (k : ℕ)
      → grouped (add_to_group article_of row groups) k
        ≡ grouped groups k ++ (if k == article_of row then row ∷ [] else [])
  grouped-add_to_group row [] k = ground arith
  grouped-add_to_group row (g ∷ gs) k =
      ground
        (arith, grouped-add_to_group row gs k, append-nil (grouped (g ∷ gs) k), append-nil g.rows)

  grouped-group_rows :
      (groups : List (Group A)) (rows : List A) (k : ℕ)
      → grouped (group_rows article_of groups rows) k
        ≡ grouped groups k ++ keep_if (λ r. k == article_of r) rows
  grouped-group_rows groups [] k = sym (append-nil (grouped groups k))
  grouped-group_rows groups (row ∷ rows) k =
      let rest = grouped-group_rows (add_to_group article_of row groups) rows k in
      let one = grouped-add_to_group row groups k in
      let later = keep_if (λ r. k == article_of r) rows in
      elim (Bool-cases (k == article_of row)) [
        | inl e ↦ ground (arith, e, rest, one, append_one-append (grouped groups k) row later)
        | inr e ↦ ground (arith, e, rest, one, append-nil (grouped groups k))
      ]

  -- The rows of one of the wanted articles are those that the read of it alone finds.
  pub find_by_articles-rows :
      (table : List A) (articles : List ℕ) (k : ℕ)
      → contains articles k ≡ true
      → grouped (find_by_articles article_of table articles) k ≡ find_by_article article_of table k
  find_by_articles-rows table [] k h = absurd (ground (arith, h))
  find_by_articles-rows table (a ∷ rest) k h =
      grouped-group_rows [] (keep_if (λ r. contains (a ∷ rest) (article_of r)) table) k
      ∙ keep_if-keep_if (λ r. k == article_of r) (λ r. contains (a ∷ rest) (article_of r)) table
          (λ r e. apart (article_of r) e)
    where
      apart : (j : ℕ) → contains (a ∷ rest) j ≡ false → (k == j) ≡ false
      apart j e = elim (ℕ_discrete k j) [
        | yes q ↦ absurd (ground (arith, ap (contains (a ∷ rest)) q, h, e))
        | no ne ↦ ground (arith, ne)
      ]
