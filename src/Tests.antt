-- ===== src/Tests.antt =====
-- Concrete inputs at which the theorems of the other modules are applied.
pub mod World
mod Detector
mod Persist
mod RateLimit
mod Settings
mod Watch
mod Policy
mod Proxy
mod Outputs
mod Certs
mod Mcp
mod Serve
mod Cmd
mod Loop
