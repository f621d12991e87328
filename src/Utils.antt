-- ===== src/Utils.antt =====
-- src/modules/utils: the date of a header and the entity tags of a conditional request.
pub mod Date
pub mod Etag
