-- ===== src/UrlService.antt =====
-- internal/service/url_service.go and bloom_service.go: the state that they share and the actions of
-- the service.
pub mod World
pub mod Alias
pub mod Shorten
pub mod Resolve
pub mod Cache
pub mod Persist
pub mod Stored
pub mod Created
pub mod Reads
pub mod Lookup
pub mod Delete
pub mod Complete
pub mod Total
pub mod Interleaved
pub mod Agreement
pub mod Simulation
pub mod Methods
pub mod History
pub mod Gone
