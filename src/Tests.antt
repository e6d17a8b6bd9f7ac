-- ===== src/Tests.antt =====
-- Runs of the operations in a small world.
mod Fixtures
mod Login
mod Messages
mod Agents
mod Account
mod Clients
mod Projects
mod Threads
mod Assistant
mod Gateway
mod Sequences
