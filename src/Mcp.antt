-- ===== src/Mcp.antt =====
-- internal/mcp/server.go: the JSON-RPC server on standard input and output. What encoding/json makes of
-- the texts is the record `Rpc`; the raw parameters of a request are their text.
pub mod Dispatch
pub mod Finish
pub mod Serve
pub mod Answers
use ghost_guard.Prelude.{String, Option, none, some, [], ◌∷◌, if◌then◌else◌, ◌==◌, ◌&◌, List}
use ghost_guard.Prelude.Int.{ℤ, negsuc}
use ghost_guard.Dict.{Dict, lookup, insert}
use ghost_guard.Runtime.{Runtime}
use ghost_guard.Model.{
  Json, null, str, arr, obj, Items, nil, cons, Fields, end, field, Args, ToolCall, PolicyDecision,
  action_string,
}
use ghost_guard.Policy.Engine.{Rego, Engine, evaluate, policy_count}

-- JSONRPCRequest; its version is not looked at.
pub record RpcRequest (F : Type 0) : Type 0 where
  pub id : Json F
  pub method : String
  pub params : String

pub record RpcError : Type 0 where
  pub code : ℤ
  pub message : String

-- JSONRPCResponse; its version is always "2.0".
pub record RpcResponse (F : Type 0) : Type 0 where
  pub id : Json F
  pub result : Option (Json F)
  pub error : Option RpcError

-- The parameters of tools/call.
pub record CallParams (F : Type 0) : Type 0 where
  pub name : String
  pub arguments : Args F

-- What json.Unmarshal makes of a text: a value, or an error with its text.
pub data Decoded (A : Type 0) : Type 0 where
  decoded : A → Decoded A
  malformed : String → Decoded A

pub record Rpc (F : Type 0) : Type 0 where
  pub decode_request : String → Decoded (RpcRequest F)
  pub decode_call : String → Decoded (CallParams F)
  pub encode_response : RpcResponse F → Option String

-- What a handler returns.
pub data Handled (F : Type 0) : Type 0 where
  result : Json F → Handled F
  error : String → Handled F

-- The methods of the server that are handlers, and any other function.
pub data Handler (F : Type 0) : Type 0 where
  initialize tools_list tools_call ping : Handler F
  custom : (String → Handled F) → Handler F

pub record McpServer (F M P : Type 0) : Type 0 where
  pub engine : Engine M P
  pub handlers : Dict (Handler F)

module _ {F : Type 0} where
  -- registerDefaults
  unfoldable pub default_handlers : Dict (Handler F)
  unfolding insert
  default_handlers = insert "ping" ping (
      insert "tools/call" tools_call
        (insert "tools/list" tools_list (insert "initialize" initialize [])))

  -- NewMCPServer
  unfoldable pub new_mcp_server : {M P : Type 0} → Engine M P → McpServer F M P
  unfolding default_handlers
  new_mcp_server engine = record { engine = engine; handlers = default_handlers }

  -- RegisterHandler
  unfoldable pub register_handler :
      {M P : Type 0} → String → Handler F → McpServer F M P → McpServer F M P
  register_handler method handler s = record s { handlers = insert method handler s.handlers }

  -- `{"content": [{"type": "text", "text": …}]}`
  unfoldable pub content_text : String → Json F
  content_text text = obj (
      field "content"
        (arr (cons (obj (field "type" (str "text") (field "text" (str text) end))) nil)) end)

  -- handleInitialize
  abbrev pub server_info : Json F
  server_info = obj (
      field "protocolVersion" (str "2024-11-05") (
        field "capabilities" (obj (field "tools" (obj end) end)) (
          field "serverInfo"
            (obj (field "name" (str "ghostguard") (field "version" (str "0.1.0") end))) end)))

  -- An entry of handleToolsList.
  abbrev pub tool_entry : String → String → Json F → Json F
  tool_entry name description schema = obj (
      field "name" (str name)
        (field "description" (str description) (field "inputSchema" schema end)))

  abbrev pub typed : String → String → Json F
  typed type description = obj (field "type" (str type) (field "description" (str description) end))

  -- handleToolsList
  abbrev pub tool_entries : Json F
  tool_entries = obj (
      field "tools"
        (arr (
          cons
            (tool_entry "ghostguard_status" "Get GhostGuard proxy status and policy info"
              (obj (field "type" (str "object") (field "properties" (obj end) end))))
            (cons
              (tool_entry "ghostguard_test_tool" "Test a tool call against loaded policies" (
                obj (
                  field "type" (str "object") (
                    field "properties"
                      (obj (
                        field "tool_name" (typed "string" "Name of the tool to test")
                          (field "arguments" (typed "object" "Tool arguments") end)))
                      (field "required" (arr (cons (str "tool_name") nil)) end)))))
              nil)))
        end)

  -- `args[key]`
  unfoldable pub get_field : String → Fields F → Option (Json F)
  get_field key end = none
  get_field key (field name value rest) = if name == key then some value else get_field key rest

  unfoldable pub get_arg : String → Args F → Option (Json F)
  unfolding get_field
  get_arg key none = none
  get_arg key (some fields) = get_field key fields

  -- `v, _ := x.(string)` and `v, _ := x.(map[string]interface{})`
  unfoldable pub as_string : Option (Json F) → String
  as_string (some (str s)) = s
  as_string (some other) = ""
  as_string none = ""

  unfoldable pub as_object : Option (Json F) → Args F
  as_object (some (obj fields)) = some fields
  as_object (some other) = none
  as_object none = none

-- The report of handleTestTool.
unfoldable pub decision_text : PolicyDecision → String
unfolding action_string
decision_text d =
    "Action: " & action_string d.action & "\nPolicy: " & d.policy_name & "\nReason: " & d.reason

module _ {F M P : Type 0} (rt : Runtime F) (opa : Rego M P F) (rpc : Rpc F) where
  -- handleStatus
  unfoldable pub handle_status : Engine M P → Handled F
  unfolding content_text policy_count
  handle_status engine = result (
      content_text
        ("GhostGuard v0.1.0 | Policies: " & rt.decimal (policy_count engine) & " loaded"))

  -- The call that handleTestTool evaluates: its raw arguments stay empty.
  unfoldable pub tested_call : Args F → ToolCall F
  unfolding get_arg as_string as_object
  tested_call args = record {
    id = "";
    name = as_string (get_arg "tool_name" args);
    arguments = as_object (get_arg "arguments" args);
    raw_args = "";
  }

  unfoldable pub handle_test_tool : ℤ → Args F → Engine M P → Handled F
  unfolding tested_call content_text decision_text
  handle_test_tool now args engine =
      result (content_text (decision_text (evaluate opa now (tested_call args) engine)))

  unfoldable pub handle_tools_call : ℤ → String → Engine M P → Handled F
  unfolding handle_status handle_test_tool
  handle_tools_call now params engine = elim (rpc.decode_call params) [
    | malformed text ↦ error ("parsing call params: " & text)
    | decoded call ↦
        if call.name == "ghostguard_status"
        then handle_status engine
        else if call.name == "ghostguard_test_tool"
        then handle_test_tool now call.arguments engine
        else error ("unknown tool: " & call.name)
  ]

  -- `handler(req.Params)`
  unfoldable pub run_handler : ℤ → Handler F → String → Engine M P → Handled F
  unfolding handle_tools_call
  run_handler now initialize params engine = result server_info
  run_handler now tools_list params engine = result tool_entries
  run_handler now tools_call params engine = handle_tools_call now params engine
  run_handler now ping params engine = result (obj end)
  run_handler now (custom f) params engine = f params

  -- sendError and sendResponse, up to the write
  abbrev pub error_response : Json F → ℤ → String → RpcResponse F
  error_response id code message = record {
    id = id;
    result = none;
    error = some (record { code = code; message = message });
  }

  -- `Result interface{} `json:"result,omitempty"``: a nil is left out of the response.
  unfoldable pub present : Json F → Option (Json F)
  present null = none
  present value = some value

  unfoldable pub respond : Json F → Handled F → RpcResponse F
  unfolding present
  respond id (result value) = record { id = id; result = present value; error = none }
  respond id (error text) = error_response id (negsuc 32602) text

  -- handleRequest, up to the write
  unfoldable pub handle_request : ℤ → RpcRequest F → McpServer F M P → RpcResponse F
  unfolding respond run_handler
  handle_request now req s = elim (lookup req.method s.handlers) [
    | none ↦ error_response req.id (negsuc 32600) ("Method not found: " & req.method)
    | some handler ↦ respond req.id (run_handler now handler req.params s.engine)
  ]

  -- writeJSON: the lines that it writes
  unfoldable pub write_json : RpcResponse F → List String
  write_json response = elim (rpc.encode_response response) [
    | none ↦ []
    | some text ↦ (text & "\n") ∷ []
  ]
