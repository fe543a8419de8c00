-- ===== src/FilePush.antt =====
-- agent/internal/filepush: files that clients push into the code directory of a sandbox. A path is the
-- list of its segments, what strings.Split makes of its text at "/", so the empty text is one empty
-- segment and an absolute path begins with one.
pub mod Cleaning
pub mod Writer
pub mod Handler
pub mod Joining
pub mod Containment
pub mod Guarding
mod Tests
