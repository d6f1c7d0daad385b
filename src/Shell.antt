-- ===== src/Shell.antt =====
-- The shell of ps5/shellp.c and its header: reading a line, its redirections, its words, and what is
-- run. A C string is the list of its characters before the terminating NUL.
pub mod Chars
pub mod Line
pub mod Redirect
pub mod Words
pub mod Command
pub mod Pipeline
pub mod Spawn
pub mod Handed
pub mod Kept
pub mod Piped
pub mod Execute
mod Examples
mod SpawnExamples
