-- ===== src/Thermal.antt =====
-- The thermal policy of backend/modeldeck/thermal.py.
pub mod Config
pub mod Machine
pub mod Admission
pub mod Telemetry
pub mod Guard
pub mod Status
pub mod Manager
