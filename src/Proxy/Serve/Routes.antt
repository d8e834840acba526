-- ===== src/Proxy/Serve/Routes.antt =====
-- internal/proxy/proxy.go: where ServeHTTP sends a request.
use ghost_guard.Prelude.{
  ℕ, String, if◌then◌else◌, ◌&◌, contains, true, false, ◌&&◌, ◌≡◌, ◌↔◌, refl, ap, arith, Option,
  none, some, ◌==◌, eq_iff, Bool-cases, inl, inr,
}
use ghost_guard.Prelude.Int.{ℤ}
use ghost_guard.Runtime.{Runtime}
use ghost_guard.Policy.Engine.{Rego}
use ghost_guard.Alert.{Outside}
use ghost_guard.Dashboard.{not_found, route}
use ghost_guard.Proxy.Extract.{Codec}
use ghost_guard.Proxy.Forward.{Request}
use ghost_guard.Proxy.State.{Proxy, Env}
use ghost_guard.Proxy.Serve.{
  Served, page, tunnelled, Hijack, unsupported, hijacked, is_local, is_dash_path, dialled_host,
  handle_connect, serve_http,
}

-- A path that goes to the dashboard is none of a page's that does not.
other_path :
    (path served : String)
    → is_dash_path path ≡ true
    → is_dash_path served ≡ false
    → (path == served) ≡ false
other_path path served dash plain = elim (Bool-cases (path == served)) [
  | inl same ↦ absurd (ground (arith, ap is_dash_path ((eq_iff path served).0 same)))
  | inr other ↦ other
]

route-is_dash_path : (path : String) → is_dash_path path ≡ true → route path ≡ not_found
unfolding route is_dash_path
route-is_dash_path path dash =
    rw
      (
        other_path path "/metrics" dash refl,
        other_path path "/prometheus" dash refl,
        other_path path "/events" dash refl,
        other_path path "/health" dash refl,
        other_path path "/" dash refl,
        other_path path "/index.html" dash refl,
      )
      refl

eq-method : (r : Request) → r.method ≡ "CONNECT" → (r.method == "CONNECT") ≡ true
eq-method r connect = (eq_iff r.method "CONNECT").1 connect

module _ {F M P : Type 0} (rt : Runtime F) (opa : Rego M P F) (o : Outside F)
    (codec : Codec F) where
  -- A request under a local host for a path that ServeHTTP keeps for the dashboard is answered by the
  -- dashboard's page of what is not found, and the proxy stays as it was.
  pub serve_http-not_found :
      (env : Env) (dial : String → Option String) (h : Hijack) (r : Request) (p : Proxy F M P)
      → is_local r.host ≡ true
      → is_dash_path r.url.path ≡ true
      → serve_http rt opa o codec env dial h r p ≡ (p, page not_found)
  unfolding serve_http
  serve_http-not_found env dial h r p host path =
      rw (host, path, route-is_dash_path r.url.path path) refl

  -- The address of a host, with the port of HTTPS where it names none.
  abbrev pub https_address : String → String
  https_address host = if contains host ":" then host else host & ":443"

  -- What handleConnect ends with and what it leaves as it was: its answer is `s`, whichever proxy it is.
  abbrev pub IsTunnel :
      (String → Option String) → Hijack → Request → Proxy F M P → Proxy F M P × Served F → Type 0
  IsTunnel dial h r p (q, s) =
      (record q { logger = p.logger } ≡ p)
      × ((s ≡ tunnelled (https_address r.host))
          ↔ ((dial (https_address r.host) ≡ none) × (h ≡ hijacked)))

  handle_connect-IsTunnel :
      (at : ℕ → ℤ) (dial : String → Option String) (h : Hijack) (r : Request) (p : Proxy F M P)
      (reached : Option String)
      → dial (https_address r.host) ≡ reached
      → IsTunnel dial h r p (handle_connect rt opa at dial h r p)
  unfolding handle_connect dialled_host
  handle_connect-IsTunnel at dial h r p (some text) e =
      rw (e, handle_connect) (refl, (λ x. ground arith, λ x. ground arith))
  handle_connect-IsTunnel at dial unsupported r p none e =
      rw (e, handle_connect) (refl, (λ x. ground arith, λ x. ground arith))
  handle_connect-IsTunnel at dial (Hijack.refused text) r p none e =
      rw (e, handle_connect) (refl, (λ x. ground arith, λ x. ground arith))
  handle_connect-IsTunnel at dial hijacked r p none e =
      rw (e, handle_connect) (refl, (λ x. (refl, refl), λ x. refl))

  -- The answer of handleConnect does not come from the proxy.
  handle_connect-any :
      (at : ℕ → ℤ) (dial : String → Option String) (h : Hijack) (r : Request) (p p' : Proxy F M P)
      (reached : Option String)
      → dial (dialled_host r.host) ≡ reached
      → (handle_connect rt opa at dial h r p).1 ≡ (handle_connect rt opa at dial h r p').1
  unfolding handle_connect
  handle_connect-any at dial h r p p' (some text) e = rw (e, handle_connect) refl
  handle_connect-any at dial unsupported r p p' none e = rw (e, handle_connect) refl
  handle_connect-any at dial (Hijack.refused text) r p p' none e = rw (e, handle_connect) refl
  handle_connect-any at dial hijacked r p p' none e = rw (e, handle_connect) refl

  -- A CONNECT request that is not the dashboard's is answered in the same way by any two proxies,
  -- whatever their policies, limits, histories and targets, and changes nothing of a proxy but the
  -- audit log: it becomes a tunnel to its host, at the port 443 if it names none, exactly when this
  -- address is reached and the connection hijacked.
  pub serve_http-tunnelled :
      (env : Env) (dial : String → Option String) (h : Hijack) (r : Request) (p p' : Proxy F M P)
      → (is_local r.host && is_dash_path r.url.path) ≡ false
      → r.method ≡ "CONNECT"
      → let (q, s) = serve_http rt opa o codec env dial h r p in
        (record q { logger = p.logger } ≡ p)
        × (s ≡ (serve_http rt opa o codec env dial h r p').1)
        × ((s ≡ tunnelled (https_address r.host))
            ↔ ((dial (https_address r.host) ≡ none) × (h ≡ hijacked)))
  unfolding serve_http
  serve_http-tunnelled env dial h r p p' other connect =
      let (kept, tunnel) = handle_connect-IsTunnel env.before dial h r p _ refl in
      let method = eq-method r connect in
      rw (other, method) (kept, handle_connect-any env.before dial h r p p' _ refl, tunnel)
