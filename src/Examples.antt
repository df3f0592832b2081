-- ===== src/Examples.antt =====
-- Tests of the model, and each theorem applied to concrete values.
mod Fixtures
mod StoreWrites
mod StoreHistories
mod DeviceApi
mod Publication
mod Values
mod Identities
mod Migrations
mod Agents
mod LostResponses
mod Decisions
mod Zones
