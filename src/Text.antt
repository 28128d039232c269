-- ===== src/Text.antt =====
-- The text that is typed on the compositor: utf8.h, input_buffer.c and completion.c.
pub mod Utf8
pub mod RoundTrip
pub mod Decoding
pub mod Canonical
pub mod InputBuffer
pub mod Typing
pub mod Editing
pub mod Completion
pub mod Completing
mod Tests
