-- ===== src/Scan.antt =====
-- The port scanner's pure parts: what to probe, with what, how fast, and how answers are read.
pub mod PortSpec
pub mod Services
pub mod Models
pub mod Probes
pub mod Pacer
pub mod Service
pub mod Targets
pub mod Strategies
pub mod Tasks
pub mod Hosts
