-- ===== src/Image.antt =====
-- src/services/image/handler.rs: the parts of the image service that compute without decoding: the
-- search for a quality that fits a byte budget, and the sizes of the steps.
pub mod MaxBytes
pub mod Sizing
pub mod Geometry
pub mod Trimming
pub mod Exif
pub mod Detect
pub mod Pipeline
