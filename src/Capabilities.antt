-- ===== src/Capabilities.antt =====
-- backend/modeldeck/capabilities.py and backend/modeldeck/protocol_contracts.py: the capabilities a
-- worker has, the contracts they are published under, and the evidence that they were tested.
pub mod Contracts
pub mod Tables
pub mod Matching
pub mod Evidence
