-- ===== src/Dashboard/Pages.antt =====
-- internal/dashboard/dashboard.go: what ServeHTTP's handlers write, the text of the page apart.
use ghost_guard.Prelude.{ℕ, String, Bool, Option, none, some, List, [], ◌∷◌, if◌then◌else◌, ◌&◌}
use ghost_guard.Prelude.Int.{ℤ}
use ghost_guard.Model.{Json, str, obj, end, field, InterceptionEvent}
use ghost_guard.Dashboard.{
  Metrics, Dashboard, Page, metrics_page, prometheus_page, events_page, health_page, index_page,
  not_found, get_metrics, prometheus_lines, route, subscribe,
}

-- The numbers of /metrics; the text of /prometheus; the JSON of /health; the page; an event stream, which
-- goes on; a writer that cannot flush, answered with 500; and http.NotFound.
pub data DashReply (F : Type 0) : Type 0 where
  metrics_json : Metrics → DashReply F
  prometheus_text : String → DashReply F
  health_json : Json F → DashReply F
  index_html event_stream no_stream missing : DashReply F

-- `for _, line := range lines { w.Write([]byte(line + "\n")) }`
unfoldable pub joined_lines : List String → String
joined_lines [] = ""
joined_lines (line ∷ lines) = line & "\n" & joined_lines lines

-- An event in the stream; `marshal` is json.Marshal, whose error leaves no text.
unfoldable pub event_text :
    {F : Type 0} → (InterceptionEvent F → Option String) → InterceptionEvent F → String
event_text marshal event =
    "data: " & (elim (marshal event) [ none ↦ "" | some text ↦ text ]) & "\n\n"

module _ {F : Type 0} (decimal : ℤ → String) where
  -- The handler of a page, up to the loop of handleSSE: `channel` is the channel that it would make, and
  -- `flushes` whether the writer is an http.Flusher.
  unfoldable pub serve_page : Bool → ℕ → Page → Dashboard F → Dashboard F × DashReply F
  unfolding prometheus_lines joined_lines subscribe
  serve_page flushes channel metrics_page d = (d, metrics_json (get_metrics d))
  serve_page flushes channel prometheus_page d =
      (d, prometheus_text (joined_lines (prometheus_lines decimal (get_metrics d))))
  serve_page flushes channel events_page d =
      if flushes then (subscribe channel d, event_stream) else (d, no_stream)
  serve_page flushes channel health_page d = (d, health_json (obj (field "status" (str "ok") end)))
  serve_page flushes channel index_page d = (d, index_html)
  serve_page flushes channel not_found d = (d, missing)

  -- ServeHTTP
  unfoldable pub serve_path : Bool → ℕ → String → Dashboard F → Dashboard F × DashReply F
  unfolding serve_page route
  serve_path flushes channel path d = serve_page flushes channel (route path) d
