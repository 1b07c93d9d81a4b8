-- ===== src/Db.antt =====
-- db/: the repository over the tables of the database.
pub mod Table
pub mod Upserts
pub mod Devices
pub mod Metrics
pub mod MetricsBulk
pub mod Properties
pub mod PropertyTable
mod Tests
