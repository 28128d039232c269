-- ===== src/Animation.antt =====
-- animation.c: the motion of a view's scene node from where it is drawn to where it belongs.
pub mod Motion
pub mod Ticking
pub mod Landing
mod Tests
