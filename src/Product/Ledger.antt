-- ===== src/Product/Ledger.antt =====
-- Requests to src/product/product.controller.ts that run at the same time, and the ledger of items
-- over them: what is in stock, what is in the hands of a request, what is published.
pub mod Owes
pub mod System
pub mod Holds
pub mod Decrement
pub mod Movements
pub mod Calls
pub mod Invariant
pub mod Conservation
pub mod Schedule
pub mod Within
pub mod Ends
mod Tests
