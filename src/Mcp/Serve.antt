-- ===== src/Mcp/Serve.antt =====
-- internal/mcp/server.go: the loop of Serve, the goroutines that it starts, and RunMCPFromMain. A step
-- is a round of the loop or the work of one goroutine; the goroutines end in any order.
use Prim.Native.String.{len}
use ghost_guard.Prelude.{
  String, Bool, true, Option, none, some, List, [], ◌∷◌, ◌++◌, ◌≡◌, if◌then◌else◌, ◌==◌, eqb,
}
use ghost_guard.Prelude.Int.{ℤ, negsuc}
use ghost_guard.Dict.{Dict}
use ghost_guard.Runtime.{Runtime}
use ghost_guard.Model.{null}
use ghost_guard.Policy.Engine.{Rego, Engine, load_policy, new_engine}
use ghost_guard.Policy.Loader.{DirEntry, load_policies_from_dir}
use ghost_guard.Mcp.{
  RpcRequest, RpcResponse, Rpc, Decoded, decoded, malformed, McpServer, new_mcp_server,
  error_response, handle_request, write_json,
}

-- What Serve returns: the context's error, the scanner's error, or io.EOF.
pub data ServeEnd : Type 0 where
  cancelled : ServeEnd
  unreadable : String → ServeEnd
  eof : ServeEnd

-- The lines that the scanner has still to give, the requests whose goroutines run, and the responses
-- that were handed to writeJSON, the oldest first.
pub record Serving (F : Type 0) : Type 0 where
  pub unread : List String
  pub running : List (RpcRequest F)
  pub responses : List (RpcResponse F)
  pub ended : Option ServeEnd

unfoldable pub start : {F : Type 0} → List String → Serving F
start lines = record { unread = lines; running = []; responses = []; ended = none }

module _ {F M P : Type 0} (rt : Runtime F) (opa : Rego M P F) (rpc : Rpc F) where
  -- `s.sendError(nil, -32700, "Parse error")`
  abbrev pub parse_failure : RpcResponse F
  parse_failure = error_response rt opa rpc null (negsuc 32699) "Parse error"

  -- A line that was decoded, or was not.
  unfoldable pub take_request : Decoded (RpcRequest F) → Serving F → Serving F
  take_request (malformed text) s = record s { responses = s.responses ++ parse_failure ∷ [] }
  take_request (decoded req) s = record s { running = s.running ++ req ∷ [] }

  -- The rest of a round that has scanned a line.
  unfoldable pub take_line : String → Serving F → Serving F
  take_line line s = if eqb (len line) 0 then s else take_request (rpc.decode_request line) s

  -- The end of the input, `failure` being the scanner's error.
  unfoldable pub scan_end : Option String → ServeEnd
  scan_end none = eof
  scan_end (some text) = unreadable text

  -- `cancellable` says whether the context of Serve can be done: that of RunMCPFromMain, which is
  -- context.Background(), never is.
  module _ (server : McpServer F M P) (cancellable : Bool) (failure : Option String) where
    pub data Step (s : Serving F) : Serving F → Type 0 where
      scans :
          (line : String) (rest : List String)
          → s.ended ≡ none
          → s.unread ≡ line ∷ rest
          → Step s (take_line line (record s { unread = rest }))
      answers :
          (now : ℤ) (before later : List (RpcRequest F)) (req : RpcRequest F)
          → s.running ≡ before ++ req ∷ later
          → Step s (record s {
            running = before ++ later;
            responses = s.responses ++ handle_request rt opa rpc now req server ∷ [];
          })
      stops : s.ended ≡ none → s.unread ≡ [] → Step s (record s { ended = some (scan_end failure) })
      cancels : cancellable ≡ true → s.ended ≡ none → Step s (record s { ended = some cancelled })

    pub data Reach (s : Serving F) : Serving F → Type 0 where
      here : Reach s s
      next : {t u : Serving F} → Reach s t → Step t u → Reach s u

  -- The lines of the output.
  unfoldable pub output : List (RpcResponse F) → List String
  output [] = []
  output (r ∷ rs) = write_json rt opa rpc r ++ output rs

  -- The loop of RunMCPFromMain over the policies, in the order of the range; errors are dropped.
  unfoldable pub load_each : Dict String → Engine M P → Engine M P
  load_each [] engine = engine
  load_each ((name, text) ∷ policies) engine =
      load_each policies (load_policy opa name text engine).0

  -- os.Getenv("GHOSTGUARD_POLICY_DIR"), or "./policies"
  unfoldable pub policy_dir : String → String
  policy_dir variable = if variable == "" then "./policies" else variable

  -- RunMCPFromMain, up to the call of Serve: `read_dir` is what os.ReadDir gives for a directory, and
  -- `order` the order of the range over the policies.
  unfoldable pub mcp_from_main :
      (Dict String → Dict String) → (String → Option (List DirEntry)) → String → McpServer F M P
  unfolding policy_dir
  mcp_from_main order read_dir variable =
      elim (load_policies_from_dir (read_dir (policy_dir variable))) [
        | none ↦ new_mcp_server (new_engine opa)
        | some policies ↦ new_mcp_server (load_each (order policies) (new_engine opa))
      ]
