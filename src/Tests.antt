-- ===== src/Tests.antt =====
-- Runs of the theorems at concrete states.
pub mod Scene
mod Handlers
mod Objects
mod Sessions
mod Codecs
mod Players
mod Connections
mod Reading
mod Running
mod Answers
