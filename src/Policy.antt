-- ===== src/Policy.antt =====
-- internal/policy: the policies, and the decision about a tool call.
pub mod Engine
pub mod Loader
