-- ===== src/Lib.antt =====
-- GhostGuard: a proxy between AI agents and AI providers. It reads the tool calls in a request, has a
-- policy engine decide about each, watches them for anomalies, and forwards the request or denies it.
--
-- The parts, by the files of the repository that they model:
--
--   internal/model/event.go         Model
--   internal/detector/ratelimit.go  Detector/RateLimit; Laws, Quota and Cleanup below it
--   internal/detector/window.go     Detector/Window; Laws
--   internal/detector/baseline.go   Detector/Baseline; Laws
--   internal/detector/entropy.go    Detector/Entropy; Counts
--   internal/detector/persist.go    Detector/Persist; RoundTrip
--   internal/detector/detector.go   Detector/Analyze; Tools, Sequence and Checks
--   internal/policy/engine.go       Policy/Engine; Verdict, Loading and History
--   internal/policy/loader.go       Policy/Loader; Laws
--   internal/alert                  Alert; Laws
--   internal/audit/logger.go        Audit
--   internal/dashboard/dashboard.go Dashboard; Counters, Totals, Clients and Pages
--   internal/proxy/proxy.go         Proxy/Config with Merge and Overrides; Proxy/State; Proxy/Watch with Removed;
--                                   Proxy/Serve with Routes and Stop
--   internal/proxy/intercept.go     Proxy/Extract, Proxy/Forward; Proxy/Inspect with Enforce and
--                                   Trail; Proxy/Handle with Enforce, Denials, Limited and Undecoded;
--                                   Proxy/Mitm with Judge; handleConnect in Proxy/Serve
--   internal/proxy/tls.go           Proxy/Certs with Threads and Cache
--   internal/mcp/server.go          Mcp; Serve, Answers, Finish and Dispatch
--   cmd/ghostguard/main.go          Cmd; Lint, Try and Serve; Proxy/Config, for the flags of `serve`
--
-- Prelude holds the tests on numbers and strings, lists, and Go's 64-bit integers; Dict the maps, as
-- association lists; Runtime the arithmetic of float64 and the texts of fmt, time and encoding/json, as
-- parameters. Tests holds the examples.
--
-- A request goes through handle_http (handleHTTP): the rate limiter's `allow`, extract_tool_calls, and
-- `inspect`, the loop over the calls, which asks the engine's `evaluate`, writes the decision to the audit
-- log, sends alerts, and has the detector's `analyze` look at the calls that are not refused; then
-- forward_http, and record_event of the dashboard. The record Proxy holds the state of them all, and
-- beside it what has left the program: the requests that were sent on and the alerts that were
-- delivered. mitm_round is a round of mitmHTTPS, which shares the loop; load_policies fills the engine,
-- and watch_tick is a round of the goroutine that reloads changed policies. serve_http (ServeHTTP) chooses
-- between the dashboard, handle_connect and handle_http; new_proxy (New) puts the parts together.
--
-- Where goroutines share a state a relation Step says what one of them may do next, and Reach is any number
-- of steps: in Proxy/Certs/Threads for the goroutines in GetCert, whose steps are the critical sections; and in
-- Mcp/Serve for the loop of the MCP server and the requests that it starts. mcp_from_main and run_serve are the programs of `mcp` and `serve`.
--
-- A method that changes its receiver is a function to the new record. A mutex makes a method one step, so
-- that a run of the program is a sequence of steps in some order. The clock, random identifiers, the
-- order of a range over a map, the network, the disk and the Open Policy Agent are arguments: `now` and
-- `at` are readings of the clock, in nanoseconds since Go's zero time, `Env` is what one request meets, and
-- `Rego`, `Codec`, `Outside` and `Runtime` stand for the libraries. `none` stands for an error where its
-- text is not looked at. `int`, `int64` and time.Duration are integers; sums that can reach 2 ^ 63 are
-- written with add64 and sub64, which wrap. Instants are not bounded. All loops are recursions on lists;
-- no fuel is used.
--
-- Not modelled: the copies of the bytes in a tunnel, which are calls of io.Copy; the servers of net/http
-- and the goroutines that run them, but for what they call; key generation, signatures and encodings of
-- certificates, which are the record `Crypto`; package flag and encoding/json, whose results are
-- parameters; the dashboard's page, the usage and the default config.yaml, which are output; and the Rego
-- policies, which are input.
pub mod Prelude
pub mod Dict
pub mod Model
pub mod Runtime
pub mod Detector
pub mod Policy
pub mod Alert
pub mod Audit
pub mod Dashboard
pub mod Proxy
pub mod Mcp
pub mod Cmd
pub mod Tests
