-- ===== src/Service.antt =====
-- internal/service: the nearby searches of the two maps, for shipments and for drivers.
pub mod Ids
pub mod Limits
pub mod Drivers
pub mod Vehicles
pub mod Shipments
