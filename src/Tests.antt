-- ===== src/Tests.antt =====
-- Each property at a concrete input, and runs of the models.
mod Samples
mod Messages
mod Types
mod Blocks
mod Starting
mod Delivering
mod Waiting
mod Histories
mod Probing
mod Programs
