-- ===== src/Tests.antt =====
-- Concrete inputs at which the theorems apply.
mod Data
mod ModelTests
mod EventTests
mod IngestTests
mod MergeTests
mod RegistryTests
mod ActivityTests
mod OutboxTests
mod PartitionTests
mod ParserTests
mod CollectTests
mod CapacityTests
mod RespCacheTests
mod SiteAuthTests
mod DeliveryTests
