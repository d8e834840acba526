-- ===== src/Proxy/Forward.antt =====
-- internal/proxy/intercept.go: copyHeaders and forwardToUpstream.
use ghost_guard.Prelude.{String, ◌||◌, Option, List, [], ◌∷◌, ◌++◌, if◌then◌else◌, ◌==◌, contains}
use ghost_guard.Prelude.Int.{ℤ}
use ghost_guard.Dict.{lookup, insert, delete, get_or}
use ghost_guard.Proxy.Config.{Config}
use ghost_guard.Proxy.Extract.{Header}

-- url.URL: its scheme and host, and the rest of it.
pub record Url : Type 0 where
  pub scheme : String
  pub host : String
  pub path : String
  pub query : String

-- http.Request; a body that cannot be read is `none`.
pub record Request : Type 0 where
  pub method : String
  pub host : String
  pub url : Url
  pub header : Header
  pub body : Option String

-- The request that is sent on.
pub record OutRequest : Type 0 where
  pub method : String
  pub url : Url
  pub host : String
  pub header : Header
  pub body : String

-- http.Client.Do: an error, or a response whose body may be unreadable.
pub data Upstream : Type 0 where
  unreachable : String → Upstream
  replied : (status : ℤ) → Header → (body : Option String) → Upstream

-- Header.Add; the keys of a map that net/http made are canonical.
unfoldable pub add_value : String → String → Header → Header
unfolding get_or insert lookup
add_value k v h = insert k (get_or [] k h ++ v ∷ []) h

unfoldable pub add_values : String → List String → Header → Header
unfolding add_value
add_values k [] h = h
add_values k (v ∷ vs) h = add_values k vs (add_value k v h)

-- `src` in the order in which one `range` visits it.
unfoldable pub copy_headers : Header → Header → Header
unfolding add_values
copy_headers [] dst = dst
copy_headers ((k, vv) ∷ src) dst = copy_headers src (add_values k vv dst)

-- `p.config.TargetHosts[0]`, if there is one.
abbrev pub first_host : List String → String → String
first_host [] host = host
first_host (target ∷ targets) host = target

unfoldable pub upstream_url : {F : Type 0} → Config F → Request → Url
upstream_url cfg r =
    let is_local =
      contains r.host "127.0.0.1"
      || (contains r.host "localhost" || contains r.host cfg.listen_addr) in
    if r.url.host == "" || r.url.scheme == ""
    then record (r.url) {
      scheme = "https";
      host = if is_local then first_host cfg.target_hosts r.host else r.host;
    }
    else r.url

unfoldable pub out_request : {F : Type 0} → Config F → Request → String → OutRequest
unfolding upstream_url copy_headers delete
out_request cfg r body = record {
  method = r.method;
  url = upstream_url cfg r;
  host = (upstream_url cfg r).host;
  header = delete "Proxy-Connection" (copy_headers r.header []);
  body = body;
}
