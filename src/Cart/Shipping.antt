-- ===== src/Cart/Shipping.antt =====
-- Shipping profiles and their columns: apps/api/src/cart/cart-shipping.ts.
use vp_parts.Base.{ℕ, ◌≡◌, refl, Bool, true, not, ◌&&◌, ◌||◌, Option, none, some, arith, is_none}

-- `PackageSizeCm` and `ShippingProfile` of apps/api/src/tecdoc/shipping-profile.ts.
pub record PackageSizeCm : Type 0 where
  pub side_length : ℕ
  pub side_width : ℕ
  pub side_height : ℕ

pub record ShippingProfile : Type 0 where
  pub weight_grams : Option ℕ
  pub package_cm : Option PackageSizeCm

pub record ResolvedShippingProfile : Type 0 where
  pub weight_grams : Option ℕ
  pub package_cm : Option PackageSizeCm
  pub is_estimated : Bool

pub record CartShippingColumns : Type 0 where
  pub weight_grams : Option ℕ
  pub package_length_cm : Option ℕ
  pub package_width_cm : Option ℕ
  pub package_height_cm : Option ℕ
  pub is_shipping_estimated : Bool

-- `packageCm?.length ?? null`
abbrev side_of : (PackageSizeCm → ℕ) → Option PackageSizeCm → Option ℕ
side_of side none = none
side_of side (some box) = some (side box)

unfoldable pub to_shipping_columns : ResolvedShippingProfile → CartShippingColumns
to_shipping_columns p = record {
  weight_grams = p.weight_grams;
  package_length_cm = side_of (λ b. b.side_length) p.package_cm;
  package_width_cm = side_of (λ b. b.side_width) p.package_cm;
  package_height_cm = side_of (λ b. b.side_height) p.package_cm;
  is_shipping_estimated = p.is_estimated;
}

abbrev boxed : Option ℕ → Option ℕ → Option ℕ → Option PackageSizeCm
boxed (some l) (some w) (some h) =
    some (record { side_length = l; side_width = w; side_height = h })
boxed _ _ _ = none

unfoldable pub from_shipping_columns : CartShippingColumns → ResolvedShippingProfile
from_shipping_columns c = record {
  weight_grams = c.weight_grams;
  package_cm = boxed c.package_length_cm c.package_width_cm c.package_height_cm;
  is_estimated = c.is_shipping_estimated;
}

unfoldable pub is_fully_measured : ShippingProfile → Bool
is_fully_measured p = not (is_none p.weight_grams) && not (is_none p.package_cm)

abbrev or_fallback {ℓ} : {A : Type ℓ} → Option A → Option A → Option A
or_fallback none fallback = fallback
or_fallback (some a) fallback = some a

unfoldable pub prefer_measured : ShippingProfile → ShippingProfile → ShippingProfile
prefer_measured preferred fallback = record {
  weight_grams = or_fallback preferred.weight_grams fallback.weight_grams;
  package_cm = or_fallback preferred.package_cm fallback.package_cm;
}

box_roundtrip :
    (p : Option PackageSizeCm)
    → boxed
        (side_of (λ b. b.side_length) p)
        (side_of (λ b. b.side_width) p)
        (side_of (λ b. b.side_height) p)
      ≡ p
box_roundtrip none = refl
box_roundtrip (some b) = refl

-- Either all three sides of the box are stored, or none is.
abbrev pub IsWhole : CartShippingColumns → Type 0
IsWhole c =
    (is_none c.package_length_cm ≡ is_none c.package_width_cm)
    × (is_none c.package_width_cm ≡ is_none c.package_height_cm)

-- A profile survives its columns, and the columns it is stored in are whole; whole columns survive
-- the profile that is read from them.
pub shipping_columns_roundtrip :
    (p : ResolvedShippingProfile) (c : CartShippingColumns)
    → IsWhole c
    → (from_shipping_columns (to_shipping_columns p) ≡ p)
      × IsWhole (to_shipping_columns p)
      × (to_shipping_columns (from_shipping_columns c) ≡ c)
unfolding to_shipping_columns from_shipping_columns
shipping_columns_roundtrip p c whole =
    (ground (arith, box_roundtrip p.package_cm), ground arith, ground arith)

-- Falling back measures a profile fully exactly when each half is known on either side, changes a
-- fully measured profile in nothing, and can be chained in any grouping.
prefer_measured_laws :
    (p q r : ShippingProfile)
    → (is_fully_measured (prefer_measured p q)
        ≡ (not (is_none p.weight_grams) || not (is_none q.weight_grams))
          && (not (is_none p.package_cm) || not (is_none q.package_cm)))
      × (is_fully_measured p ≡ true → prefer_measured p q ≡ p)
      × (prefer_measured (prefer_measured p q) r ≡ prefer_measured p (prefer_measured q r))
unfolding is_fully_measured prefer_measured
prefer_measured_laws p q r = (ground arith, λ h. ground arith, ground arith)
