-- ===== src/Inventory.antt =====
-- The stock of an article, apps/api/src/inventory: its parts, for the client modules to use.
pub mod Rules
pub mod Offers
pub mod Calendar
pub mod Schedule
pub mod Stock
pub mod Availability
mod Examples
