-- ===== src/Base/Pairs.antt =====
-- Two tables compared row by row.
use mathlib.Core.Path.{◌≡◌}
use mathlib.Core.Logic.{inl, inr}
use mathlib.Core.Bool.{Bool, true, false}
use mathlib.Core.List.{List, [], ◌∷◌, map}
use native.Mathlib.Omega.{arith}
use vp_parts.Base.Tests.{if◌then◌else◌, Bool-cases}
use vp_parts.Base.Rows.{update_where}

-- As many rows in each, and each row relates to the one in its place.
abbrev pub AllPairs : {A B : Type 0} → (A → B → Type 0) → List A → List B → Type 0
AllPairs R [] [] = Unit {0}
AllPairs R [] (y ∷ ys) = ⊥
AllPairs R (x ∷ xs) [] = ⊥
AllPairs R (x ∷ xs) (y ∷ ys) = R x y × AllPairs R xs ys

module _ {A B : Type 0} where
  pub AllPairs-map :
      (R : A → B → Type 0) (f : A → B) (xs : List A)
      → ((x : A) → R x (f x))
      → AllPairs R xs (map f xs)
  AllPairs-map R f [] h = tt
  AllPairs-map R f (x ∷ xs) h = (h x, AllPairs-map R f xs h)

module _ {A : Type 0} (R : A → A → Type 0) where
  pub AllPairs-update_where :
      (p : A → Bool) (f : A → A) (xs : List A)
      → ((x : A) → p x ≡ true → R x (f x))
      → ((x : A) → p x ≡ false → R x x)
      → AllPairs R xs (update_where p f xs)
  AllPairs-update_where p f [] yes_row no_row = tt
  AllPairs-update_where p f (x ∷ xs) yes_row no_row =
      (first, AllPairs-update_where p f xs yes_row no_row)
    where
      first : R x (if p x then f x else x)
      first = elim (Bool-cases (p x)) [
        | inl e ↦ ground (arith, yes_row x e)
        | inr e ↦ ground (arith, no_row x e)
      ]

  -- The same, for a table that has been changed before.
  pub AllPairs-update_after :
      (P : A → A → Type 0) (p : A → Bool) (f : A → A) (xs ys : List A)
      → ((x y : A) → P x y → p y ≡ true → R x (f y))
      → ((x y : A) → P x y → p y ≡ false → R x y)
      → AllPairs P xs ys
      → AllPairs R xs (update_where p f ys)
  AllPairs-update_after P p f [] [] yes_row no_row h = tt
  AllPairs-update_after P p f [] (y ∷ ys) yes_row no_row h = absurd h
  AllPairs-update_after P p f (x ∷ xs) [] yes_row no_row h = absurd h
  AllPairs-update_after P p f (x ∷ xs) (y ∷ ys) yes_row no_row h =
      (first, AllPairs-update_after P p f xs ys yes_row no_row h.1)
    where
      first : R x (if p y then f y else y)
      first = elim (Bool-cases (p y)) [
        | inl e ↦ ground (arith, yes_row x y h.0 e)
        | inr e ↦ ground (arith, no_row x y h.0 e)
      ]
