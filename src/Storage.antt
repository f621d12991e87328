-- ===== src/Storage.antt =====
-- src/services/storage: the keys that a backend accepts.
pub mod KeyValidation
pub mod Backend
pub mod Service
pub mod LocalFs
