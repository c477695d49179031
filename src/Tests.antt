-- ===== src/Tests.antt =====
-- The theorems at concrete inputs, and tests of the definitions.
mod Samples
mod Protocol
mod Coordinator
mod Routing
mod Grants
mod Dispatching
mod Sweeping
mod Admitting
mod Intents
mod Rotation
