-- ===== src/Stacking.antt =====
-- view.c: which views are visible, and in which order they stand. Each list that the code keeps
-- through an intrusive link is a list of view numbers, front first.
pub mod Links
pub mod State
pub mod Pointer
pub mod Mapping
pub mod Membership
pub mod Visibility
pub mod Invariant
pub mod Focus
pub mod Grouping
pub mod Lifecycle
pub mod Unmap
pub mod Lock
pub mod Locking
pub mod Dangling
pub mod Walk
pub mod Order
pub mod Tests
