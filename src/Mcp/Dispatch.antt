-- ===== src/Mcp/Dispatch.antt =====
-- internal/mcp/server.go: what handleRequest answers, and the tool that tries the policies.
use ghost_guard.Prelude.{
  String, Bool, true, false, ◌&&◌, ◌||◌, List, [], ◌∷◌, any, if◌then◌else◌, ◌==◌, Bool-cases, ◌⊎◌,
  eq_iff, not, Option, none, some, is_some, ◌≡◌, refl, sym, inl, inr,
}
use ghost_guard.Prelude.Int.{ℤ, negsuc}
use ghost_guard.Dict.{lookup, insert}
use ghost_guard.Runtime.{Runtime}
use ghost_guard.Model.{Json, str, obj, Fields, Args, ToolCall}
use ghost_guard.Policy.Engine.{Rego, Engine, Input, evaluate}
use ghost_guard.Mcp.{
  RpcRequest, RpcResponse, CallParams, Rpc, Decoded, malformed, decoded, handle_status, present,
  new_mcp_server, default_handlers, handle_request, respond, run_handler, handle_tools_call,
  handle_test_tool, tested_call, content_text, decision_text, get_arg, as_string, as_object,
}

Decoded-cases :
    {A : Type 0} (d : Decoded A)
    → ((text : String) × (d ≡ malformed text)) ⊎ ((a : A) × (d ≡ decoded a))
Decoded-cases (malformed text) = inl (text, refl)
Decoded-cases (decoded a) = inr (a, refl)

module _ {F M P : Type 0} (rt : Runtime F) (opa : Rego M P F) (rpc : Rpc F) where
  abbrev pub error_code : RpcResponse F → Option ℤ
  error_code r = elim r.error [ none ↦ none | some e ↦ some e.code ]

  -- The four methods of a server that NewMCPServer has made.
  abbrev pub default_methods : List String
  default_methods = "initialize" ∷ "tools/list" ∷ "tools/call" ∷ "ping" ∷ []

  -- The parameters are those of a call of one of the server's two tools.
  unfoldable pub calls_tool : String → Bool
  calls_tool params = elim (rpc.decode_call params) [
    | malformed text ↦ false
    | decoded call ↦ call.name == "ghostguard_status" || call.name == "ghostguard_test_tool"
  ]

  -- The code that a request to such a server is answered with, if it is with an error.
  unfoldable pub code_of : RpcRequest F → Option ℤ
  code_of req =
      if any (λ m. m == req.method) default_methods
      then (if req.method == "tools/call" && not (calls_tool req.params)
          then some (negsuc 32602)
          else none)
      else some (negsuc 32600)

  -- The response has the identifier, and either the error of the code or a result and no error.
  abbrev pub Tells : Json F → RpcResponse F → Option ℤ → Type 0
  Tells id r code = (r.id ≡ id) × (error_code r ≡ code) × (is_some r.result ≡ not (is_some r.error))

  handle_tools_call-Tells :
      (now : ℤ) (id : Json F) (params : String) (e : Engine M P)
      → Tells id
          (respond rt opa rpc id (handle_tools_call rt opa rpc now params e))
          (if not (calls_tool params) then some (negsuc 32602) else none)
  unfolding respond present handle_tools_call handle_status handle_test_tool content_text calls_tool
  handle_tools_call-Tells now id params e = elim (Decoded-cases (rpc.decode_call params)) [
    | inl (text, refused) ↦ rw (refused, handle_tools_call, calls_tool) (refl, refl, refl)
    | inr (call, read) ↦ elim (Bool-cases (call.name == "ghostguard_status")) [
      | inl status ↦ rw (read, handle_tools_call, calls_tool) (rw status (refl, refl, refl))
      | inr other ↦ elim (Bool-cases (call.name == "ghostguard_test_tool")) [
        | inl tested ↦
            rw (read, handle_tools_call, calls_tool) (rw (other, tested) (refl, refl, refl))
        | inr unknown ↦
            rw (read, handle_tools_call, calls_tool) (rw (other, unknown) (refl, refl, refl))
      ]
    ]
  ]

  -- A server that NewMCPServer has made answers with the identifier of the request, and with a result or
  -- an error, never both. It is the error -32601 for a method that is none of its four; -32603 for
  -- tools/call whose parameters cannot be read or name none of its two tools; and else a result.
  pub handle_request-code_of :
      (now : ℤ) (req : RpcRequest F) (e : Engine M P)
      → Tells req.id (handle_request rt opa rpc now req (new_mcp_server e)) (code_of req)
  unfolding handle_request new_mcp_server default_handlers run_handler insert lookup respond present
      code_of
  handle_request-code_of now req e = elim (Bool-cases ("initialize" == req.method)) [
    | inl same ↦ rw (method_of same) (refl, refl, refl)
    | inr a ↦ elim (Bool-cases ("tools/list" == req.method)) [
      | inl same ↦ rw (method_of same) (refl, refl, refl)
      | inr b ↦ elim (Bool-cases ("tools/call" == req.method)) [
        | inl same ↦ rw (method_of same) (handle_tools_call-Tells now req.id req.params e)
        | inr c ↦ elim (Bool-cases ("ping" == req.method)) [
          | inl same ↦ rw (method_of same) (refl, refl, refl)
          | inr d ↦
              let absent : lookup req.method (new_mcp_server {F = F} e).handlers ≡ none =
                rw (a, b, c, d) refl in
              rw (absent, handle_request) (rw (a, b, c, d) (refl, refl, refl))
        ]
      ]
    ]
  ]
    where
      method_of : {name : String} → (name == req.method) ≡ true → req.method ≡ name
      method_of {name} same = sym ((eq_iff name req.method).0 same)

  evaluate-raw_args :
      (now : ℤ) (tc : ToolCall F) (id raw : String) (e : Engine M P)
      → ((i : Input F) (raw : String)
          → opa.eval e.prepared (record i { raw_args = raw }) ≡ opa.eval e.prepared i)
      → evaluate opa now (record tc { id = id; raw_args = raw }) e ≡ evaluate opa now tc e
  unfolding evaluate
  evaluate-raw_args now tc id raw e blind =
      rw
        (
          evaluate,
          blind (record { tool_name = tc.name; arguments = tc.arguments; raw_args = tc.raw_args })
              raw,
        )
        refl

  -- The handler of a new server for a method of its own.
  handle_request-tools_call :
      (now : ℤ) (req : RpcRequest F) (e : Engine M P)
      → req.method ≡ "tools/call"
      → handle_request rt opa rpc now req (new_mcp_server e)
        ≡ respond rt opa rpc req.id (handle_tools_call rt opa rpc now req.params e)
  unfolding handle_request new_mcp_server default_handlers run_handler insert lookup
  handle_request-tools_call now req e at = rw at refl

  handle_tools_call-test_tool :
      (now : ℤ) (params : String) (e : Engine M P) (call : CallParams F)
      → rpc.decode_call params ≡ decoded call
      → call.name ≡ "ghostguard_test_tool"
      → handle_tools_call rt opa rpc now params e ≡ handle_test_tool rt opa rpc now call.arguments e
  unfolding handle_tools_call
  handle_tools_call-test_tool now params e call decodes named =
      rw (decodes, handle_tools_call, named) refl

  tested_call-fields :
      (args : Args F) (tc : ToolCall F) (fields : Fields F)
      → get_arg "tool_name" args ≡ some (str tc.name)
      → get_arg "arguments" args ≡ some (obj fields)
      → tc.arguments ≡ some fields
      → tested_call rt opa rpc args ≡ record tc { id = ""; raw_args = "" }
  unfolding tested_call as_string as_object
  tested_call-fields args tc fields name given same = rw (name, given, same) refl

  -- If the policies in force do not look at the raw arguments, a server made by NewMCPServer answers a
  -- request to try a tool with the text of the decision that the engine takes on a call of the tool
  -- with the given arguments, whatever the call's identifier and its raw arguments.
  pub handle_request-evaluate :
      (now : ℤ) (req : RpcRequest F) (e : Engine M P) (call : CallParams F) (tc : ToolCall F)
      (fields : Fields F)
      → ((i : Input F) (raw : String)
          → opa.eval e.prepared (record i { raw_args = raw }) ≡ opa.eval e.prepared i)
      → req.method ≡ "tools/call"
      → rpc.decode_call req.params ≡ decoded call
      → call.name ≡ "ghostguard_test_tool"
      → get_arg "tool_name" call.arguments ≡ some (str tc.name)
      → get_arg "arguments" call.arguments ≡ some (obj fields)
      → tc.arguments ≡ some fields
      → handle_request rt opa rpc now req (new_mcp_server e) ≡ record {
        id = req.id;
        result = some (content_text (decision_text (evaluate opa now tc e)));
        error = none;
      }
  unfolding respond handle_test_tool
  handle_request-evaluate now req e call tc fields blind at decodes named tool args same =
      rw
        (
          handle_request-tools_call now req e at,
          handle_tools_call-test_tool now req.params e call decodes named,
          tested_call-fields call.arguments tc fields tool args same,
          evaluate-raw_args now tc "" "" e blind,
        )
        refl
