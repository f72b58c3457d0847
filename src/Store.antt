-- ===== src/Store.antt =====
-- internal/store: the cell store.
pub mod Source
pub mod Schema
pub mod Cells
pub mod Colors
pub mod Columns
pub mod Own
pub mod Reads
pub mod Reconcile
pub mod Shipped
mod ShippedTests
pub mod Variations
mod RowTests
mod Tests
