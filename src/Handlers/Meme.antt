-- ===== src/Handlers/Meme.antt =====
-- src/handlers/meme_handler.cc: uploads, their log, and the pages on them.
pub mod Html
pub mod Patterns
pub mod Styles
pub mod Upload
pub mod Actions
pub mod Gallery
pub mod Page
pub mod Uploaded
