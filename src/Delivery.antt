-- ===== src/Delivery.antt =====
-- The parcel of an order, the price of its delivery, and the checkout that both are part of.
pub mod Parcel
pub mod Carriers
pub mod Checkout
mod Examples
