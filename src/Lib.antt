-- ===== src/Lib.antt =====
-- The shop of VP Parts: how carts are filled, united and ordered from, how card orders are paid, how
-- what happened is announced, and at what price and by when an article can be had.
--
-- The parts, and the code that each models (paths from the repository's root):
-- Cart: apps/api/src/cart/cart.repository.ts, cart-merge.ts and cart-shipping.ts. Cart/Tables holds
--   the tables and reads, Cart/Lines the operations on a cart's lines (`mutate`, `addLine`,
--   `updateLine`, `removeLine`, `setAllSelected`, `clear`), Cart/Lifecycle the operations on whole
--   carts (`mergeInto`, `closeForOrder`, `deleteExpiredGuestCarts`), Cart/Merge `mergeCartLines`,
--   Cart/Service `adopt` of cart.service.ts, Cart/Requests its requests on lines, and Cart/Shipping
--   the columns of a shipping profile.
-- Orders: apps/api/src/orders/orders.repository.ts (`place`), and in Orders/Service
--   orders.service.ts (`placeFromCart`). An order's transaction locks the cart, writes the order and
--   its event, and closes the cart.
-- Payments: apps/api/src/orders/card-payment/card-payment.repository.ts, in Payments/Attempts
--   card-payment.service.ts with apps/api/src/payments/dominaite.gateway.ts, and in Payments/Webhooks
--   payment-outcome.service.ts. A confirmed payment writes the event that the placement withheld.
--   Payments/Runs is the step relation of everything that writes orders, payments and the outbox.
-- Outbox: apps/api/src/events/outbox.repository.ts, and in Outbox/Relay outbox.relay.ts. Orders and
--   Payments append to it, and relays claim, deliver and delete.
-- Inventory: apps/api/src/inventory. Inventory/Rules holds delivery.ts, delivery-speed.resolver.ts and
--   warehouse.ts, Inventory/Offers best-offer.ts, Inventory/Calendar working-calendar.ts,
--   Inventory/Schedule delivery-schedule.service.ts, Inventory/Stock the two stock repositories, and
--   Inventory/Availability inventory.service.ts, whose answers Checkout prices lines by.
-- Checkout: apps/api/src/checkout/order-money.ts, apps/api/src/inventory/orderable-price.ts and
--   apps/api/src/delivery/cash-on-delivery.ts.
-- Delivery: apps/api/src/delivery. Delivery/Parcel holds the files of parcel/ and
--   `selectWarehouseForQuantity` of packages/shared/src/delivery.ts, Delivery/Carriers
--   delivery.service.ts, and Delivery/Checkout apps/api/src/checkout/checkout.service.ts, which prices
--   the lines by the stock, asks the courier and adds up the money.
-- Base: lists, table operations (`findFirst`, `updateMany`, `deleteMany`), tables compared row by row,
--   the stable sort.
--
-- State is passed explicitly: a table is the list of its rows, and a transaction is one function
-- from the tables to the tables or to the error that rolled it back; concurrency is the order of
-- such steps. Identifiers, texts, tokens and instants are numbers, since they are only compared or
-- copied; instants are milliseconds and amounts whole cents. Tests on computed values are Boolean.
-- Loops are structural recursion on a list, but for those over the days of the calendar, which run on
-- fuel: a step for each day, so that the days within which the shop opens, times the days that are
-- counted, are enough. The clock, its reading in the shop's time zone, the public holidays, what the
-- database or the platform draws (identifiers, tokens), the rows that other transactions hold locked,
-- the handlers of events, the couriers and the client of Dominaite's SDK are arguments.
--
-- Not modelled: the couriers' own services, the catalogue, accounts
-- and emails; logging, the web shop, and calls of outside services. Numbers do not overflow, and
-- amounts are exact: a price's rounding is the mathematical one. Stocks and prices are not negative,
-- and sizes are whole centimetres. Each file says what else it leaves out.
pub mod Base
pub mod Outbox
pub mod Cart
pub mod Orders
pub mod Payments
pub mod Checkout
pub mod Inventory
pub mod Delivery
