-- ===== src/Operations.antt =====
-- view.c: the geometry of one view, and the one operation on it that its client may have to answer.
pub mod Window
pub mod Commit
pub mod Queue
pub mod Move
pub mod Sound
pub mod Requests
pub mod Queuing
pub mod Running
pub mod Settling
pub mod Restoring
pub mod Fullscreen
pub mod Pinned
pub mod Dragging
mod Tests
