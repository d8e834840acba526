-- ===== src/Proxy/State.antt =====
-- internal/proxy: the proxy that the handlers of intercept.go work on, and what the world gives them.
-- Beside the fields of `Proxy` the record keeps what left the program: the alerts that were delivered
-- and the requests that were handed to the HTTP client.
use ghost_guard.Prelude.{ℕ, String, List}
use ghost_guard.Prelude.Int.{ℤ}
use ghost_guard.Model.{Json}
use ghost_guard.Detector.RateLimit.{RateLimiter}
use ghost_guard.Detector.Analyze.{Detector}
use ghost_guard.Policy.Engine.{Engine}
use ghost_guard.Alert.{Sink, Delivery}
use ghost_guard.Audit.{Logger}
use ghost_guard.Dashboard.{Dashboard}
use ghost_guard.Proxy.Config.{Config}
use ghost_guard.Proxy.Extract.{Header}
use ghost_guard.Proxy.Forward.{OutRequest, Upstream}

pub record Proxy (F M P : Type 0) : Type 0 where
  pub config : Config F
  pub engine : Engine M P
  pub detector : Detector F
  pub rate_limiter : RateLimiter
  pub sinks : List Sink
  pub logger : Logger F
  pub dash : Dashboard F
  pub sent : List Delivery
  pub forwarded : List OutRequest

-- What one request meets: the identifier that generateID draws; the texts of the errors of reading the
-- request's and the response's body, if they cannot be read; the readings of the clock before the
-- loop over the tool calls, during its round `i`, and after it; the orders in which round `i` ranges
-- over its maps; and the upstream server, `unreachable` standing for an error of
-- http.NewRequestWithContext or of Do.
pub record Env : Type 0 where
  pub id : String
  pub request_error : String
  pub response_error : String
  pub before : ℕ → ℤ
  pub during : ℕ → ℕ → ℤ
  pub after : ℕ → ℤ
  pub order : ℕ → ℕ → List ℤ → List ℤ
  pub upstream : OutRequest → Upstream

-- What is written to the client: http.Error's text; a JSON document; or the upstream's response.
pub data Reply (F : Type 0) : Type 0 where
  plain : (status : ℤ) → String → Reply F
  json : (status : ℤ) → Json F → Reply F
  copied : (status : ℤ) → Header → String → Reply F
