-- ===== src/Storage.antt =====
-- internal/storage: the database and the Redis server, which are parameters, and the code that calls
-- them.
pub mod Postgres
pub mod Redis
pub mod Stream
pub mod ClickHouse
