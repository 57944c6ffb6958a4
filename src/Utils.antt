-- ===== src/Utils.antt =====
-- src/utils.cc: looking up the configuration, the port number, and absolute paths.
pub mod Lookup
pub mod FilePath
pub mod ErrorPage
