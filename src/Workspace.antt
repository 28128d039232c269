-- ===== src/Workspace.antt =====
-- workspace.c and the walks of sheet.c: which sheet a workspace displays.
pub mod Sheets
pub mod Cycling
pub mod Display
pub mod Loops
pub mod Displayed
pub mod Switching
pub mod Pinning
pub mod Clearing
mod Tests
