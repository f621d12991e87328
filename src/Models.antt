-- ===== src/Models.antt =====
-- src/models/params.rs: the request model that the URL parser produces, and that the cache key and
-- the image pipeline read.
pub mod Formats
pub mod Query
