-- ===== src/Tests.antt =====
-- Runs of the model at concrete values.
mod Desks
mod Wire
mod Frames
mod Tables
mod Tasks
mod Rounds
mod Processes
mod Passages
mod Messages
