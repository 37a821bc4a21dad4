-- ===== src/Base/Rows.antt =====
-- Tables as lists of rows: what `findFirst`, `updateMany`, `deleteMany` and `count` do with a
-- `where`, and the laws that the repositories' proofs rest on.
use Prim.Native.Nat.{ℕ, suc, ◌+◌, ◌≤◌}
use mathlib.Core.Path.{◌≡◌, refl, ap}
use mathlib.Core.Logic.{inl, inr}
use mathlib.Core.Bool.{Bool, true, false, not}
use mathlib.Core.Option.{Option, none, some}
use mathlib.Core.List.{List, [], ◌∷◌, ◌++◌}
use native.Mathlib.Omega.{arith}
use vp_parts.Base.Tests.{if◌then◌else◌, Bool-cases}
use vp_parts.Base.Lists.{length, Has, All}

module _ {ℓ} {A : Type ℓ} where
  abbrev pub find_row : (A → Bool) → List A → Option A
  find_row p [] = none
  find_row p (x ∷ xs) = if p x then some x else find_row p xs

  abbrev pub update_where : (A → Bool) → (A → A) → List A → List A
  update_where p f [] = []
  update_where p f (x ∷ xs) = (if p x then f x else x) ∷ update_where p f xs

  -- The rows that satisfy the test; `deleteMany` keeps those that do not.
  abbrev pub keep_if : (A → Bool) → List A → List A
  keep_if p [] = []
  keep_if p (x ∷ xs) = let rest = keep_if p xs in if p x then x ∷ rest else rest

  abbrev pub count_where : (A → Bool) → List A → ℕ
  count_where p [] = 0
  count_where p (x ∷ xs) = (if p x then 1 else 0) + count_where p xs

  abbrev pub any_row : (A → Bool) → List A → Bool
  any_row p [] = false
  any_row p (x ∷ xs) = if p x then true else any_row p xs

  pub length-update_where :
      (p : A → Bool) (f : A → A) (xs : List A) → length (update_where p f xs) ≡ length xs
  length-update_where p f [] = refl
  length-update_where p f (x ∷ xs) = ap suc (length-update_where p f xs)

  -- An update that leaves a test as it was leaves its count.
  pub count-update_where :
      (q p : A → Bool) (f : A → A) (xs : List A)
      → ((x : A) → q (f x) ≡ q x)
      → count_where q (update_where p f xs) ≡ count_where q xs
  count-update_where q p f [] same = refl
  count-update_where q p f (x ∷ xs) same = ground (arith, count-update_where q p f xs same, same x)

  -- No row is named, so nothing changes.
  pub update_where-none :
      (p : A → Bool) (f : A → A) (xs : List A) → count_where p xs ≡ 0 → update_where p f xs ≡ xs
  update_where-none p f [] h = refl
  update_where-none p f (x ∷ xs) h = ground (arith, update_where-none p f xs)

  pub delete-none :
      (p : A → Bool) (xs : List A) → count_where p xs ≡ 0 → keep_if (λ x. not (p x)) xs ≡ xs
  delete-none p [] h = refl
  delete-none p (x ∷ xs) h = ground (arith, delete-none p xs)

  pub update_where-twice :
      (p : A → Bool) (f g : A → A) (xs : List A)
      → ((x : A) → p (f x) ≡ p x)
      → update_where p g (update_where p f xs) ≡ update_where p (λ x. g (f x)) xs
  update_where-twice p f g [] same = refl
  update_where-twice p f g (x ∷ xs) same = ground (arith, update_where-twice p f g xs same, same x)

  pub update_where-id :
      (p : A → Bool) (f : A → A) (xs : List A) → ((x : A) → f x ≡ x) → update_where p f xs ≡ xs
  update_where-id p f [] same = refl
  update_where-id p f (x ∷ xs) same = ground (arith, update_where-id p f xs same, same x)

  pub update_where-ext :
      (p : A → Bool) (f g : A → A) (xs : List A)
      → ((x : A) → f x ≡ g x)
      → update_where p f xs ≡ update_where p g xs
  update_where-ext p f g [] same = refl
  update_where-ext p f g (x ∷ xs) same = ground (arith, update_where-ext p f g xs same, same x)

  -- What is deleted may be written before.
  pub delete-update_where :
      (p : A → Bool) (f : A → A) (xs : List A)
      → ((x : A) → p (f x) ≡ p x)
      → keep_if (λ x. not (p x)) (update_where p f xs) ≡ keep_if (λ x. not (p x)) xs
  delete-update_where p f [] same = refl
  delete-update_where p f (x ∷ xs) same = ground (arith, delete-update_where p f xs same, same x)

  pub length-keep_if : (p : A → Bool) (xs : List A) → length (keep_if p xs) ≡ count_where p xs
  length-keep_if p [] = refl
  length-keep_if p (x ∷ xs) = ground (arith, length-keep_if p xs)

  pub count_where-append :
      (p : A → Bool) (xs ys : List A)
      → count_where p (xs ++ ys) ≡ count_where p xs + count_where p ys
  count_where-append p [] ys = omega arith
  count_where-append p (x ∷ xs) ys = omega (arith, count_where-append p xs ys)

  pub count-keep_if-le :
      (q p : A → Bool) (xs : List A) → count_where q (keep_if p xs) ≤ count_where q xs
  count-keep_if-le q p [] = omega arith
  count-keep_if-le q p (x ∷ xs) = ground (arith, count-keep_if-le q p xs)

  pub count_where-ext :
      (p q : A → Bool) (xs : List A) → ((x : A) → p x ≡ q x) → count_where p xs ≡ count_where q xs
  count_where-ext p q [] same = refl
  count_where-ext p q (x ∷ xs) same = ground (arith, count_where-ext p q xs same, same x)

  pub All-update_where {κ} :
      (P : A → Type κ) (p : A → Bool) (f : A → A) (xs : List A)
      → ((x : A) → P x → p x ≡ true → P (f x))
      → All P xs
      → All P (update_where p f xs)
  All-update_where P p f [] keep h = tt
  All-update_where P p f (x ∷ xs) keep h = (head (p x) refl, All-update_where P p f xs keep h.1)
    where
      head : (b : Bool) → p x ≡ b → P (if p x then f x else x)
      head true e = ground (arith, keep x h.0 e)
      head false e = ground arith

  pub All-keep_if {κ} :
      (P : A → Type κ) (p : A → Bool) (xs : List A) → All P xs → All P (keep_if p xs)
  All-keep_if P p [] h = tt
  All-keep_if P p (x ∷ xs) h = ground (arith, All-keep_if P p xs h.1)

module _ {ℓ} {A : Type ℓ} where
  -- The first row that satisfies a test, after an update of such rows that leaves the test alone.
  pub find_row-update_where :
      (p : A → Bool) (f : A → A) (xs : List A)
      → ((x : A) → p (f x) ≡ p x)
      → find_row p (update_where p f xs)
        ≡ (elim (find_row p xs) [ none ↦ none | some x ↦ some (f x) ])
  find_row-update_where p f [] same = refl
  find_row-update_where p f (x ∷ xs) same =
      ground (arith, find_row-update_where p f xs same, same x)

  pub find_row-none : (p : A → Bool) (xs : List A) → count_where p xs ≡ 0 → find_row p xs ≡ none
  find_row-none p [] h = refl
  find_row-none p (x ∷ xs) h = ground (arith, find_row-none p xs)

  pub find_row-append :
      (p : A → Bool) (xs ys : List A) → find_row p xs ≡ none → find_row p (xs ++ ys) ≡ find_row p ys
  find_row-append p [] ys h = refl
  find_row-append p (x ∷ xs) ys h = ground (arith, find_row-append p xs ys)

  -- Rows that an update may touch are not among those that a test keeps.
  pub keep_if-update_where :
      (q p : A → Bool) (f : A → A) (xs : List A)
      → ((x : A) → q (f x) ≡ q x)
      → ((x : A) → p x ≡ true → q x ≡ false)
      → keep_if q (update_where p f xs) ≡ keep_if q xs
  keep_if-update_where q p f [] same apart = refl
  keep_if-update_where q p f (x ∷ xs) same apart = elim (Bool-cases (p x)) [
    | inl e ↦ ground (arith, keep_if-update_where q p f xs same apart, same x, apart x e)
    | inr e ↦ ground (arith, keep_if-update_where q p f xs same apart)
  ]

  pub keep_if-append :
      (q : A → Bool) (xs ys : List A) → keep_if q (xs ++ ys) ≡ keep_if q xs ++ keep_if q ys
  keep_if-append q [] ys = refl
  keep_if-append q (x ∷ xs) ys = ground (arith, keep_if-append q xs ys)

  pub keep_if-keep_if :
      (q p : A → Bool) (xs : List A)
      → ((x : A) → p x ≡ false → q x ≡ false)
      → keep_if q (keep_if p xs) ≡ keep_if q xs
  keep_if-keep_if q p [] apart = refl
  keep_if-keep_if q p (x ∷ xs) apart = elim (Bool-cases (p x)) [
    | inl e ↦ ground (arith, keep_if-keep_if q p xs apart)
    | inr e ↦ ground (arith, keep_if-keep_if q p xs apart, apart x e)
  ]

module _ {A : Type 0} where
  pub Has-update_where :
      (p : A → Bool) (f : A → A) (y : A) (xs : List A)
      → Has y (update_where p f xs)
      → (x : A) × Has x xs × (y ≡ (if p x then f x else x))
  Has-update_where p f y [] h = absurd h
  Has-update_where p f y (x ∷ xs) (inl e) = (x, inl refl, e)
  Has-update_where p f y (x ∷ xs) (inr h) =
      let (z, m, e) = Has-update_where p f y xs h in (z, inr m, e)

  pub Has-keep_if : (p : A → Bool) (y : A) (xs : List A) → Has y (keep_if p xs) → Has y xs
  Has-keep_if p y [] h = h
  Has-keep_if p y (x ∷ xs) h = elim (Bool-cases (p x)) [
    | inl e ↦ ground (arith, Has-keep_if p y xs)
    | inr e ↦ ground (arith, Has-keep_if p y xs)
  ]

  pub Has-keep_if_test : (p : A → Bool) (y : A) (xs : List A) → Has y (keep_if p xs) → p y ≡ true
  Has-keep_if_test p y [] h = absurd h
  Has-keep_if_test p y (x ∷ xs) h = elim (Bool-cases (p x)) [
    | inl e ↦ ground (arith, Has-keep_if_test p y xs)
    | inr e ↦ ground (arith, Has-keep_if_test p y xs)
  ]

  pub find_row-Has :
      (p : A → Bool) (y : A) (xs : List A) → find_row p xs ≡ some y → Has y xs × (p y ≡ true)
  find_row-Has p y [] h = absurd (cc)
  find_row-Has p y (x ∷ xs) h = ground (arith, find_row-Has p y xs)
