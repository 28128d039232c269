-- ===== src/Layout.antt =====
-- sheet.c's layouts and split.c: which view gets which box when a sheet is laid out.
pub mod Plan
pub mod Algorithms
pub mod Scan
pub mod Takes
pub mod Contract
pub mod Grid
pub mod Run
pub mod Rows
pub mod Split
pub mod Splitting
pub mod Copying
pub mod Apply
pub mod Applying
pub mod Showing
mod Tests
