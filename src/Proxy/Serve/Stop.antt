-- ===== src/Proxy/Serve/Stop.antt =====
-- internal/proxy/proxy.go: what any number of calls of Shutdown closes.
use ghost_guard.Prelude.{
  ℕ, zero, suc, ◌+◌, ◌&&◌, Bool, true, false, List, [], ◌∷◌, ◌++◌, ◌≡◌, refl, arith, String, Option,
  some, if◌then◌else◌, ◌==◌, Option-cases, inl, inr, count_if, count_if-append,
}
use ghost_guard.Prelude.Int.{ℤ}
use ghost_guard.Runtime.{Runtime}
use ghost_guard.Detector.Persist.{BaselineData, ReadFile}
use ghost_guard.Policy.Engine.{Rego}
use ghost_guard.Audit.{LogEntry}
use ghost_guard.Proxy.Config.{Config}
use ghost_guard.Proxy.Certs.{Made, made, failed, CertManager}
use ghost_guard.Proxy.Serve.{
  created, new_proxy, Server, Closing, stop_channel, dash_server, http_server, shutdown,
}

abbrev pub is_stop : Closing → Bool
is_stop stop_channel = true
is_stop dash_server = false
is_stop http_server = false

abbrev pub is_http : Closing → Bool
is_http stop_channel = false
is_http dash_server = false
is_http http_server = true

-- What a call of Shutdown adds to a count of the closings.
count_if-shutdown :
    (q : Closing → Bool) (stopped has_dash : Bool) (cs : List Closing)
    → count_if q (
        (cs ++ (if stopped then [] else stop_channel ∷ []))
        ++ ((if has_dash then dash_server ∷ [] else []) ++ http_server ∷ []))
      ≡ (count_if q cs + (if stopped then 0 else if q stop_channel then 1 else 0))
        + ((if has_dash && q dash_server then 1 else 0) + (if q http_server then 1 else 0))
count_if-shutdown q stopped has_dash cs =
    let last =
      count_if-append q (cs ++ (if stopped then [] else stop_channel ∷ []))
        ((if has_dash then dash_server ∷ [] else []) ++ http_server ∷ []) in
    let first = count_if-append q cs (if stopped then [] else stop_channel ∷ []) in
    let dash = count_if-append q (if has_dash then dash_server ∷ [] else []) (http_server ∷ []) in
    ground (arith, last, first, dash)

module _ {F M P K X C : Type 0} where
  -- `n` calls of Shutdown.
  abbrev pub shutdowns : ℕ → Server F M P K X C → Server F M P K X C
  shutdowns zero s = s
  shutdowns (suc n) s = shutdowns n (shutdown s)

  stop-shutdown :
      (s : Server F M P K X C)
      → count_if is_stop (shutdown s).closings
        ≡ count_if is_stop s.closings + (if s.stopped then 0 else 1)
  unfolding shutdown
  stop-shutdown s = ground (arith, count_if-shutdown is_stop s.stopped s.has_dash s.closings)

  http-shutdown :
      (s : Server F M P K X C)
      → count_if is_http (shutdown s).closings ≡ suc (count_if is_http s.closings)
  unfolding shutdown
  http-shutdown s = ground (arith, count_if-shutdown is_http s.stopped s.has_dash s.closings)

  stopped-shutdown : (s : Server F M P K X C) → (shutdown s).stopped ≡ true
  unfolding shutdown
  stopped-shutdown s = refl

  stop-shutdowns :
      (n : ℕ) (s : Server F M P K X C)
      → s.stopped ≡ true
      → count_if is_stop (shutdowns n s).closings ≡ count_if is_stop s.closings
  stop-shutdowns zero s stopped = refl
  stop-shutdowns (suc n) s stopped =
      let later = stop-shutdowns n (shutdown s) (stopped-shutdown s) in
      ground (arith, later, stop-shutdown s)

  http-shutdowns :
      (n : ℕ) (s : Server F M P K X C)
      → count_if is_http (shutdowns n s).closings ≡ n + count_if is_http s.closings
  http-shutdowns zero s = omega arith
  http-shutdowns (suc n) s = omega (arith, http-shutdowns n (shutdown s), http-shutdown s)

  -- A proxy that New has made has closed nothing.
  new_proxy-fresh :
      (rt : Runtime F) (opa : Rego M P F) (parse : String → Option (BaselineData F)) (at : ℕ → ℤ)
      (file : ReadFile) (certs : Made (CertManager K X C))
      (open_log : String → Option (LogEntry F → Option String))
      (writer : LogEntry F → Option String) (config : Config F) (s : Server F M P K X C)
      → new_proxy rt opa parse at file certs open_log writer config ≡ created s
      → (s.closings ≡ []) × (s.stopped ≡ false)
  unfolding new_proxy
  new_proxy-fresh rt opa parse at file (failed e) open_log writer config s made_by =
      absurd (ground arith)
  new_proxy-fresh rt opa parse at file (made certs) open_log writer config s made_by =
      elim (Option-cases
        (if config.audit_log_path == "" then some writer else open_log config.audit_log_path)) [
          | inl none_open ↦ absurd (ground (arith, rw (none_open, new_proxy) at made_by))
          | inr (write, opened) ↦
              let same = rw (opened, new_proxy) at made_by in ground (arith, same)
        ]

  -- Of any positive number of calls of Shutdown on a proxy that New has made the first alone closes the
  -- channel that stops the watcher, and each shuts down the HTTP server.
  pub new_proxy-shutdowns :
      (rt : Runtime F) (opa : Rego M P F) (parse : String → Option (BaselineData F)) (at : ℕ → ℤ)
      (file : ReadFile) (certs : Made (CertManager K X C))
      (open_log : String → Option (LogEntry F → Option String))
      (writer : LogEntry F → Option String) (config : Config F) (s : Server F M P K X C) (n : ℕ)
      → new_proxy rt opa parse at file certs open_log writer config ≡ created s
      → (count_if is_stop (shutdowns (suc n) s).closings ≡ 1)
        × (count_if is_http (shutdowns (suc n) s).closings ≡ suc n)
  new_proxy-shutdowns rt opa parse at file certs open_log writer config s n made_by =
      let (none_closed, running) =
        new_proxy-fresh rt opa parse at file certs open_log writer config s made_by in
      let none_stopped : count_if is_stop s.closings ≡ 0 = rw none_closed refl in
      let none_shut : count_if is_http s.closings ≡ 0 = rw none_closed refl in
      (
        ground (arith, stop-shutdown s, stop-shutdowns n (shutdown s) (stopped-shutdown s)),
        omega (arith, http-shutdowns (suc n) s),
      )
