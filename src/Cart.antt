-- ===== src/Cart.antt =====
-- The server-side cart: apps/api/src/cart/cart.repository.ts, cart-merge.ts,
-- cart-shipping.ts and cart.service.ts.
-- Identifiers, texts and tokens are only compared or copied, so they are numbers; an instant is a number
-- of milliseconds, and a side of a box a number of some fixed fraction of a centimetre.
pub mod Shipping
pub mod Tables
pub mod Lines
pub mod Lifecycle
pub mod Merge
pub mod Service
pub mod Requests
mod Examples
