-- ===== src/Examples.antt =====
-- Tests of the definitions, and each theorem at an input that meets its hypotheses.
mod ThermalMachine
mod ThermalPolicy
mod Supervision
mod Routes
mod LocalBoundary
mod Gateways
mod Engines
mod Setups
mod RoutingTables
mod Generations
mod Scenes
