-- ===== src/Tests.antt =====
-- Runs of the model on concrete inputs, and the theorems applied to them.
mod Config
mod ConfigExamples
mod Request
mod Posix
mod Paths
mod Serving
mod Handling
mod Sessions
mod Messages
mod Exchanges
mod Program
mod Runs
mod Memes
