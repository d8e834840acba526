-- ===== src/Detector.antt =====
-- internal/detector: rate limiting, the baseline of call rates, and the four checks of a call.
pub mod RateLimit
pub mod Window
pub mod Baseline
pub mod Entropy
pub mod Persist
pub mod Analyze
