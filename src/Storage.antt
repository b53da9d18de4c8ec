-- ===== src/Storage.antt =====
-- infrastructure/storage: the in-memory Redis and MySQL back ends.
pub mod Redis
pub mod Mysql
