-- ===== src/Tools/Files.antt =====
-- src/tools/files: the tools on the files of the workspace.
pub mod Text
pub mod Output
pub mod Errors
pub mod Edits
pub mod Segments
pub mod Resolve
pub mod Diff
pub mod Validation
pub mod Writing
pub mod Tools
mod Tests
