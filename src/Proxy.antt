-- ===== src/Proxy.antt =====
-- internal/proxy: the configuration, the extraction of tool calls, and the handling of requests.
pub mod Config
pub mod Extract
pub mod Forward
pub mod State
pub mod Inspect
pub mod Handle
pub mod Mitm
pub mod Watch
pub mod Certs
pub mod Serve
