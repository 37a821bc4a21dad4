-- ===== src/Base/Keys.antt =====
-- Tables whose rows carry a key.
use Prim.Native.Nat.{ℕ, ◌+◌, ◌≤◌}
use mathlib.Core.Path.{◌≡◌, refl}
use mathlib.Core.Logic.{inl, inr}
use mathlib.Core.Bool.{Bool, false, ◌||◌}
use mathlib.Core.List.{List, [], ◌∷◌, ◌++◌, map}
use native.Mathlib.Omega.{arith}
use vp_parts.Base.Tests.{◌==◌}
use vp_parts.Base.Lists.{length, Has, contains, Has-contains}
use vp_parts.Base.Rows.{update_where, keep_if, count_where}

-- No two rows share a key.
module _ {A : Type 0} (key : A → ℕ) where
  abbrev pub Distinct : List A → Type 0
  Distinct [] = Unit {0}
  Distinct (x ∷ xs) = (contains (map key xs) (key x) ≡ false) × Distinct xs

  pub Distinct-eq :
      (a b : A) (xs : List A) → Distinct xs → Has a xs → Has b xs → key a ≡ key b → a ≡ b
  Distinct-eq a b [] d h k e = absurd h
  Distinct-eq a b (x ∷ xs) d (inl h) (inl k) e = cc
  Distinct-eq a b (x ∷ xs) d (inl h) (inr k) e =
      absurd (ground (arith, Has-contains key b xs k, d.0))
  Distinct-eq a b (x ∷ xs) d (inr h) (inl k) e =
      absurd (ground (arith, Has-contains key a xs h, d.0))
  Distinct-eq a b (x ∷ xs) d (inr h) (inr k) e = Distinct-eq a b xs d.1 h k e

  count-key_absent :
      (k : ℕ) (xs : List A) → contains (map key xs) k ≡ false → count_where (λ x. k == key x) xs ≡ 0
  count-key_absent k [] h = refl
  count-key_absent k (x ∷ xs) h = ground (arith, count-key_absent k xs)

  -- A key names one row at most.
  pub count-key-le : (k : ℕ) (xs : List A) → Distinct xs → count_where (λ x. k == key x) xs ≤ 1
  count-key-le k [] d = omega arith
  count-key-le k (x ∷ xs) d = ground (arith, count-key-le k xs d.1, count-key_absent k xs)

  count-keys_cons :
      (k : ℕ) (ks : List ℕ) (xs : List A)
      → count_where (λ x. contains (k ∷ ks) (key x)) xs
        ≤ count_where (λ x. k == key x) xs + count_where (λ x. contains ks (key x)) xs
  count-keys_cons k ks [] = omega arith
  count-keys_cons k ks (x ∷ xs) = ground (arith, count-keys_cons k ks xs)

  count-no_keys : (xs : List A) → count_where (λ x. contains [] (key x)) xs ≡ 0
  count-no_keys [] = refl
  count-no_keys (x ∷ xs) = omega (arith, count-no_keys xs)

  -- As many rows as keys at most.
  pub count-keys-le :
      (ks : List ℕ) (xs : List A)
      → Distinct xs
      → count_where (λ x. contains ks (key x)) xs ≤ length ks
  count-keys-le [] xs d = omega (arith, count-no_keys xs)
  count-keys-le (k ∷ ks) xs d =
      omega (arith, count-keys_cons k ks xs, count-key-le k xs d, count-keys-le ks xs d)

  contains-update_where :
      (p : A → Bool) (f : A → A) (k : ℕ) (xs : List A)
      → ((x : A) → key (f x) ≡ key x)
      → contains (map key (update_where p f xs)) k ≡ contains (map key xs) k
  contains-update_where p f k [] same = refl
  contains-update_where p f k (x ∷ xs) same =
      ground (arith, contains-update_where p f k xs same, same x)

  -- An update that leaves the keys alone keeps the rows distinct.
  pub Distinct-update_where :
      (p : A → Bool) (f : A → A) (xs : List A)
      → ((x : A) → key (f x) ≡ key x)
      → Distinct xs
      → Distinct (update_where p f xs)
  Distinct-update_where p f [] same d = tt
  Distinct-update_where p f (x ∷ xs) same d = ground (
    arith,
    Distinct-update_where p f xs same d.1,
    contains-update_where p f (key x) xs same,
    same x,
  )

  contains-keep_if :
      (p : A → Bool) (k : ℕ) (xs : List A)
      → contains (map key xs) k ≡ false
      → contains (map key (keep_if p xs)) k ≡ false
  contains-keep_if p k [] h = refl
  contains-keep_if p k (x ∷ xs) h = ground (arith, contains-keep_if p k xs)

  pub Distinct-keep_if : (p : A → Bool) (xs : List A) → Distinct xs → Distinct (keep_if p xs)
  Distinct-keep_if p [] d = tt
  Distinct-keep_if p (x ∷ xs) d =
      ground (arith, Distinct-keep_if p xs d.1, contains-keep_if p (key x) xs d.0)

  contains-append_one :
      (k : ℕ) (xs : List A) (a : A)
      → contains (map key (xs ++ a ∷ [])) k ≡ contains (map key xs) k || (key a == k)
  contains-append_one k [] a = ground arith
  contains-append_one k (x ∷ xs) a = ground (arith, contains-append_one k xs a)

  -- A row under a new key keeps the rows distinct.
  pub Distinct-append :
      (xs : List A) (a : A)
      → contains (map key xs) (key a) ≡ false
      → Distinct xs
      → Distinct (xs ++ a ∷ [])
  Distinct-append [] a fresh d = (refl, tt)
  Distinct-append (x ∷ xs) a fresh d =
      ground (arith, Distinct-append xs a, contains-append_one (key x) xs a)
