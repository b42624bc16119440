-- ===== src/Tests.antt =====
-- The properties at concrete inputs.
mod Scene
mod Handlers
mod Cooldown
mod Components
mod Offers
mod Lodging
mod Loading
mod Success
mod Claiming
mod Chain
mod Nodes
mod Journey
