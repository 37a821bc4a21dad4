-- ===== src/Cart/Merge/Index.antt =====
-- Positions of lines by their article, and the index that the merge keeps of them.
use vp_parts.Base.{
  ℕ, zero, suc, ◌≡◌, refl, sym, ap, ◌∙◌, subst, inl, inr, Bool, true, false, not, ◌||◌, Option,
  none, some, List, [], ◌∷◌, ◌++◌, arith, if◌then◌else◌, is_none, Bool-cases, length, update_where,
  any_row,
}
use vp_parts.Cart.Tables.{Identity}
use vp_parts.Cart.Merge.{StoredLine, same_key, index_of, set_index, modify_at}

abbrev pub has_key : Identity → StoredLine → Bool
has_key k line = same_key line.identity k

-- No two lines are of one article.
abbrev pub UniqueKeys : List StoredLine → Type 0
UniqueKeys [] = Unit {0}
UniqueKeys (x ∷ xs) = (any_row (has_key x.identity) xs ≡ false) × UniqueKeys xs

-- Where a key's line stands.
abbrev pub position : Identity → List StoredLine → Option ℕ
position k [] = none
position k (x ∷ xs) =
    if has_key k x then some 0 else (elim (position k xs) [ none ↦ none | some i ↦ some (suc i) ])

-- The index answers where each key's line stands.
abbrev pub Indexes : List (Identity × ℕ) → List StoredLine → Type 0
Indexes entries lines = (k : Identity) → index_of k entries ≡ position k lines

pub index_of-set_index :
    (k j : Identity) (v : ℕ) (entries : List (Identity × ℕ))
    → index_of k (set_index j v entries) ≡ (if same_key j k then some v else index_of k entries)
index_of-set_index k j v [] = refl
index_of-set_index k j v ((i, w) ∷ entries) = ground (arith, index_of-set_index k j v entries)

pub position-append :
    (k : Identity) (xs : List StoredLine) (x : StoredLine)
    → position k (xs ++ x ∷ []) ≡ (elim (position k xs) [
      | some i ↦ some i
      | none ↦ if has_key k x then some (length xs) else none
    ])
position-append k [] x = ground arith
position-append k (y ∷ ys) x = ground (arith, position-append k ys x)

pub position-update :
    (k : Identity) (p : StoredLine → Bool) (f : StoredLine → StoredLine) (xs : List StoredLine)
    → ((x : StoredLine) → p x ≡ true → (f x).identity ≡ x.identity)
    → position k (update_where p f xs) ≡ position k xs
position-update k p f [] same = refl
position-update k p f (x ∷ xs) same = elim (Bool-cases (p x)) [
  | inl e ↦ ground (arith, position-update k p f xs same, same x e)
  | inr e ↦ ground (arith, position-update k p f xs same)
]

pub any_row-position :
    (k : Identity) (xs : List StoredLine) → any_row (has_key k) xs ≡ not (is_none (position k xs))
any_row-position k [] = refl
any_row-position k (x ∷ xs) = ground (arith, any_row-position k xs)

pub update-absent :
    (k : Identity) (f : StoredLine → StoredLine) (xs : List StoredLine)
    → any_row (has_key k) xs ≡ false
    → update_where (has_key k) f xs ≡ xs
update-absent k f [] h = refl
update-absent k f (x ∷ xs) h = ground (arith, update-absent k f xs)

-- Writing at a key's position is writing the lines with that key.
pub modify_at-position :
    (k : Identity) (f : StoredLine → StoredLine) (xs : List StoredLine) (i : ℕ)
    → UniqueKeys xs
    → position k xs ≡ some i
    → modify_at i f xs ≡ update_where (has_key k) f xs
modify_at-position k f [] i u e = cc
modify_at-position k f (x ∷ xs) zero u e = elim (Bool-cases (has_key k x)) [
  | inl this ↦
      let same : x.identity ≡ k = ground arith in
      ground (arith, update-absent k f xs (subst (λ j. any_row (has_key j) xs ≡ false) same u.0))
  | inr other ↦ absurd (ground arith)
]
modify_at-position k f (x ∷ xs) (suc i) u e = elim (Bool-cases (has_key k x)) [
  | inl this ↦ absurd (ground arith)
  | inr other ↦ ground (arith, modify_at-position k f xs i u.1)
]

pub UniqueKeys-update :
    (p : StoredLine → Bool) (f : StoredLine → StoredLine) (xs : List StoredLine)
    → ((x : StoredLine) → p x ≡ true → (f x).identity ≡ x.identity)
    → UniqueKeys xs
    → UniqueKeys (update_where p f xs)
UniqueKeys-update p f [] same u = tt
UniqueKeys-update p f (x ∷ xs) same u = elim (Bool-cases (p x)) [
  | inl e ↦ ground (arith, UniqueKeys-update p f xs same u.1, keys_stay x.identity, same x e)
  | inr e ↦ ground (arith, UniqueKeys-update p f xs same u.1, keys_stay x.identity)
]
  where
    keys_stay : (k : Identity) → any_row (has_key k) (update_where p f xs) ≡ any_row (has_key k) xs
    keys_stay k =
        any_row-position k (update_where p f xs)
        ∙ ap (λ o. not (is_none o)) (position-update k p f xs same)
        ∙ sym (any_row-position k xs)

pub any_row-append_one :
    (k : Identity) (xs : List StoredLine) (x : StoredLine)
    → any_row (has_key k) (xs ++ x ∷ []) ≡ any_row (has_key k) xs || has_key k x
any_row-append_one k [] x = ground arith
any_row-append_one k (y ∷ ys) x = ground (arith, any_row-append_one k ys x)

pub UniqueKeys-append :
    (xs : List StoredLine) (x : StoredLine)
    → any_row (has_key x.identity) xs ≡ false
    → UniqueKeys xs
    → UniqueKeys (xs ++ x ∷ [])
UniqueKeys-append [] x fresh u = (refl, tt)
UniqueKeys-append (y ∷ ys) x fresh u =
    ground (arith, UniqueKeys-append ys x, any_row-append_one y.identity ys x)
