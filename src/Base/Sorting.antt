-- ===== src/Base/Sorting.antt =====
-- `Array.prototype.sort` with a comparator, which is stable. A comparator answers how two elements
-- compare; the sort reads only whether the second goes strictly first.
use Prim.Native.Nat.{suc, ◌+◌}
use mathlib.Core.Path.{◌≡◌, refl}
use mathlib.Core.Logic.{◌⊎◌, inl, inr}
use mathlib.Core.Bool.{Bool, true, false}
use mathlib.Core.List.{List, [], ◌∷◌}
use native.Mathlib.Omega.{arith}
use vp_parts.Base.Tests.{if◌then◌else◌, Bool-cases}
use vp_parts.Base.Lists.{length, Has, All, All-mono}
use vp_parts.Base.Rows.{count_where}

module _ {ℓ} {A : Type ℓ} (goes_before : A → A → Bool) where
  -- `x` stands after the elements that do not go after it.
  abbrev pub insert_sorted : A → List A → List A
  insert_sorted x [] = x ∷ []
  insert_sorted x (y ∷ ys) =
      let rest = insert_sorted x ys in if goes_before y x then y ∷ rest else x ∷ y ∷ ys

  abbrev pub sort_by : List A → List A
  sort_by [] = []
  sort_by (x ∷ xs) = insert_sorted x (sort_by xs)

  count-insert_sorted :
      (p : A → Bool) (x : A) (xs : List A)
      → count_where p (insert_sorted x xs) ≡ (if p x then 1 else 0) + count_where p xs
  count-insert_sorted p x [] = refl
  count-insert_sorted p x (y ∷ ys) = ground (arith, count-insert_sorted p x ys)

  -- Sorting keeps how many elements satisfy a test.
  pub count-sort_by : (p : A → Bool) (xs : List A) → count_where p (sort_by xs) ≡ count_where p xs
  count-sort_by p [] = refl
  count-sort_by p (x ∷ xs) = omega (arith, count-insert_sorted p x (sort_by xs), count-sort_by p xs)

  length-insert_sorted : (x : A) (xs : List A) → length (insert_sorted x xs) ≡ suc (length xs)
  length-insert_sorted x [] = refl
  length-insert_sorted x (y ∷ ys) = ground (arith, length-insert_sorted x ys)

  pub length-sort_by : (xs : List A) → length (sort_by xs) ≡ length xs
  length-sort_by [] = refl
  length-sort_by (x ∷ xs) = omega (arith, length-insert_sorted x (sort_by xs), length-sort_by xs)

  All-insert_sorted {κ} :
      (P : A → Type κ) (x : A) (xs : List A) → P x → All P xs → All P (insert_sorted x xs)
  All-insert_sorted P x [] h k = (h, tt)
  All-insert_sorted P x (y ∷ ys) h k = ground (arith, All-insert_sorted P x ys h k.1)

  pub All-sort_by {κ} : (P : A → Type κ) (xs : List A) → All P xs → All P (sort_by xs)
  All-sort_by P [] h = tt
  All-sort_by P (x ∷ xs) h = All-insert_sorted P x (sort_by xs) h.0 (All-sort_by P xs h.1)

  -- No later element goes strictly before an earlier one.
  abbrev pub IsOrdered : List A → Type 0
  IsOrdered [] = Unit {0}
  IsOrdered (x ∷ xs) = All (λ y. goes_before y x ≡ false) xs × IsOrdered xs

  -- The comparator is a strict weak order, as far as the sort needs it.
  pub record IsStrict : Type ℓ where
    pub asymmetric : (x y : A) → goes_before x y ≡ true → goes_before y x ≡ false
    pub negatively_transitive :
        (x y z : A) → goes_before x y ≡ false → goes_before y z ≡ false → goes_before x z ≡ false

  insert_sorted-IsOrdered :
      IsStrict → (x : A) (xs : List A) → IsOrdered xs → IsOrdered (insert_sorted x xs)
  insert_sorted-IsOrdered s x [] h = (tt, tt)
  insert_sorted-IsOrdered s x (y ∷ ys) h = elim (Bool-cases (goes_before y x)) [
    | inl e ↦
        let rest = insert_sorted-IsOrdered s x ys h.1 in
        let above =
          All-insert_sorted (λ z. goes_before z y ≡ false) x ys (s.asymmetric y x e) h.0 in
        ground (arith, rest, above)
    | inr e ↦
        let above =
          All-mono (λ z. goes_before z y ≡ false) (λ z. goes_before z x ≡ false) ys
            (λ z q. s.negatively_transitive z y x q e) h.0 in
        ground (arith, above)
  ]

  pub sort_by-IsOrdered : IsStrict → (xs : List A) → IsOrdered (sort_by xs)
  sort_by-IsOrdered s [] = tt
  sort_by-IsOrdered s (x ∷ xs) = insert_sorted-IsOrdered s x (sort_by xs) (sort_by-IsOrdered s xs)

module _ {A : Type 0} (goes_before : A → A → Bool) where
  Has-insert_sorted :
      (a x : A) (xs : List A) → Has a (insert_sorted goes_before x xs) → (a ≡ x) ⊎ Has a xs
  Has-insert_sorted a x [] h = h
  Has-insert_sorted a x (y ∷ ys) h = elim (Bool-cases (goes_before y x)) [
    | inl e ↦ ground (arith, Has-insert_sorted a x ys)
    | inr e ↦ ground arith
  ]

  pub Has-sort_by : (a : A) (xs : List A) → Has a (sort_by goes_before xs) → Has a xs
  Has-sort_by a [] h = h
  Has-sort_by a (x ∷ xs) h =
      ground (arith, Has-insert_sorted a x (sort_by goes_before xs), Has-sort_by a xs)

  insert_sorted-Has :
      (a x : A) (xs : List A) → (a ≡ x) ⊎ Has a xs → Has a (insert_sorted goes_before x xs)
  insert_sorted-Has a x [] h = h
  insert_sorted-Has a x (y ∷ ys) h = ground (arith, insert_sorted-Has a x ys)

  pub sort_by-Has : (a : A) (xs : List A) → Has a xs → Has a (sort_by goes_before xs)
  sort_by-Has a [] h = h
  sort_by-Has a (x ∷ xs) (inl e) = insert_sorted-Has a x (sort_by goes_before xs) (inl e)
  sort_by-Has a (x ∷ xs) (inr m) =
      insert_sorted-Has a x (sort_by goes_before xs) (inr (sort_by-Has a xs m))
