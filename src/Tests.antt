-- ===== src/Tests.antt =====
-- Runs of the model on concrete inputs, and every theorem applied at one.
mod Detection
mod Protocols
mod Frames
mod Watch
mod Scanner
mod Schedule
mod Hosts
mod Commands
mod Outputs
mod Practice
mod Files
mod Payloads
