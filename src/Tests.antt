-- ===== src/Tests.antt =====
-- Runs of the definitions at concrete inputs, and the theorems at concrete inputs.
pub mod Data
pub mod Zone
pub mod Names
pub mod Delegation
pub mod Certificates
pub mod Mail
pub mod Hosts
pub mod Findings
pub mod Servers
