-- ===== src/Delivery/Carriers/Lockers.antt =====
-- Which parcels delivery.service.ts lets go to a locker.
use vp_parts.Base.{ℕ, ◌≤◌, ◌≡◌, true, some, List}
use vp_parts.Cart.Shipping.{PackageSizeCm}
use vp_parts.Delivery.Parcel.{ParcelLine, Parcel, fits_cell}

-- A line whose box was measured, and fits the cell if the line has a unit at all.
abbrev pub HasFittingBox : List ℕ → ParcelLine → Type 0
HasFittingBox cell line =
    (size : PackageSizeCm) × (line.shipping_profile.package_cm ≡ some size)
    × (1 ≤ line.quantity → fits_cell size cell ≡ true)
