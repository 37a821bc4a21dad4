-- ===== src/Base/Finding.antt =====
-- What a lookup says of the rows, and of the rows of a part of a table after a write.
use Prim.Native.Nat.{◌+◌}
use mathlib.Core.Path.{◌≡◌, refl, ap}
use mathlib.Core.Logic.{inl, inr}
use mathlib.Core.Bool.{Bool, true, false, not}
use mathlib.Core.Option.{some}
use mathlib.Core.List.{List, [], ◌∷◌, ◌++◌, map}
use native.Mathlib.Omega.{arith}
use vp_parts.Base.Tests.{ltb, Bool-cases}
use vp_parts.Base.Lists.{length, Has, All}
use vp_parts.Base.Rows.{find_row, update_where, keep_if, count_where}

module _ {ℓ} {A : Type ℓ} where
  pub count-found :
      (p : A → Bool) (y : A) (xs : List A)
      → find_row p xs ≡ some y
      → ltb 0 (count_where p xs) ≡ true
  count-found p y [] h = absurd (cc)
  count-found p y (x ∷ xs) h = ground (arith, count-found p y xs)

  pub append-nil : (xs : List A) → xs ++ [] ≡ xs
  append-nil [] = refl
  append-nil (x ∷ xs) = ground (arith, append-nil xs)

  pub append_one-append : (xs : List A) (x : A) (ys : List A) → (xs ++ x ∷ []) ++ ys ≡ xs ++ x ∷ ys
  append_one-append [] x ys = refl
  append_one-append (z ∷ xs) x ys = ground (arith, append_one-append xs x ys)

  -- An update of rows that a lookup does not read leaves its answer.
  pub find_row-update_other :
      (q p : A → Bool) (f : A → A) (xs : List A)
      → ((x : A) → q (f x) ≡ q x)
      → ((x : A) → p x ≡ true → q x ≡ false)
      → find_row q (update_where p f xs) ≡ find_row q xs
  find_row-update_other q p f [] same apart = refl
  find_row-update_other q p f (x ∷ xs) same apart = elim (Bool-cases (p x)) [
    | inl e ↦ ground (arith, find_row-update_other q p f xs same apart, same x, apart x e)
    | inr e ↦ ground (arith, find_row-update_other q p f xs same apart)
  ]

  pub find_row-append_found :
      (p : A → Bool) (y : A) (xs ys : List A)
      → find_row p xs ≡ some y
      → find_row p (xs ++ ys) ≡ some y
  find_row-append_found p y [] ys h = absurd (cc)
  find_row-append_found p y (x ∷ xs) ys h = ground (arith, find_row-append_found p y xs ys)

  pub keep_if-all : (p : A → Bool) (xs : List A) → All (λ x. p x ≡ true) xs → keep_if p xs ≡ xs
  keep_if-all p [] h = refl
  keep_if-all p (x ∷ xs) h = ground (arith, keep_if-all p xs h.1)

  pub keep_if-none : (p : A → Bool) (xs : List A) → All (λ x. p x ≡ false) xs → keep_if p xs ≡ []
  keep_if-none p [] h = refl
  keep_if-none p (x ∷ xs) h = ground (arith, keep_if-none p xs h.1)

  pub keep_if-disjoint :
      (q p : A → Bool) (xs : List A)
      → ((x : A) → p x ≡ true → q x ≡ false)
      → keep_if q (keep_if p xs) ≡ []
  keep_if-disjoint q p [] apart = refl
  keep_if-disjoint q p (x ∷ xs) apart = elim (Bool-cases (p x)) [
    | inl e ↦ ground (arith, keep_if-disjoint q p xs apart, apart x e)
    | inr e ↦ ground (arith, keep_if-disjoint q p xs apart)
  ]

  pub count_keep_if-split :
      (p : A → Bool) (xs : List A)
      → count_where p xs + length (keep_if (λ x. not (p x)) xs) ≡ length xs
  count_keep_if-split p [] = refl
  count_keep_if-split p (x ∷ xs) = ground (arith, count_keep_if-split p xs)

  pub keep_if-All : (p : A → Bool) (xs : List A) → All (λ x. p x ≡ true) (keep_if p xs)
  keep_if-All p [] = tt
  keep_if-All p (x ∷ xs) = elim (Bool-cases (p x)) [
    | inl e ↦ ground (arith, keep_if-All p xs)
    | inr e ↦ ground (arith, keep_if-All p xs)
  ]

module _ {ℓ κ} {A : Type ℓ} {B : Type κ} where
  pub All-map {μ} :
      (P : B → Type μ) (f : A → B) (xs : List A) → ((x : A) → P (f x)) → All P (map f xs)
  All-map P f [] h = tt
  All-map P f (x ∷ xs) h = (h x, All-map P f xs h)

module _ {A : Type 0} where
  pub keep_if-Has :
      (p : A → Bool) (y : A) (xs : List A) → Has y xs → p y ≡ true → Has y (keep_if p xs)
  keep_if-Has p y [] h t = h
  keep_if-Has p y (x ∷ xs) (inl e) t = ground (arith, ap p e)
  keep_if-Has p y (x ∷ xs) (inr h) t = ground (arith, keep_if-Has p y xs h t)
