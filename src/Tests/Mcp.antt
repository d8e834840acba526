-- ===== src/Tests/Mcp.antt =====
-- internal/mcp/server.go: a request, an empty line and one that is no JSON; and the trial of a tool.
use ghost_guard.Prelude.{
  String, false, none, some, List, [], ◌∷◌, ◌++◌, ◌≡◌, ◌⊎◌, ◌≤◌, ◌*◌, ◌+◌, refl, if◌then◌else◌,
  ◌==◌, length,
}
use ghost_guard.Prelude.Int.{ℤ, pos}
use ghost_guard.Dict.{Dict}
use ghost_guard.Model.{str, obj, end, field, ToolCall}
use ghost_guard.Policy.Engine.{evaluate}
use ghost_guard.Mcp.{
  RpcRequest, Rpc, CallParams, decoded, malformed, McpServer, new_mcp_server, handle_request,
  content_text, decision_text, get_arg, get_field,
}
use ghost_guard.Mcp.Serve.{
  Serving, start, take_line, take_request, Step, scans, answers, Reach, here, next,
}
use ghost_guard.Mcp.Answers.{answered, open_ids, ids_of, Reach-ids}
use ghost_guard.Mcp.Finish.{IsFinished, steps, Reach-finishes}
use ghost_guard.Mcp.Dispatch.{Tells, code_of, handle_request-code_of, handle_request-evaluate}
use ghost_guard.Tests.World.{runtime, opa, engine}
use mathlib.Core.List.{Perm}

-- A line is the method of a request, which is also its identifier; "{" is no JSON.
abbrev rpc : Rpc ℤ
rpc = record {
  decode_request = λ line.
      if line == "{"
      then malformed "unexpected end"
      else decoded record { id = str line; method = line; params = "shell" };
  decode_call = λ text. decoded record {
    name = "ghostguard_test_tool";
    arguments = some (field "tool_name" (str text) (field "arguments" (obj end) end));
  };
  encode_response = λ r. some "{}";
}

abbrev server : McpServer ℤ String (Dict String)
server = new_mcp_server engine

abbrev lines : List String
lines = "tools/call" ∷ "" ∷ "{" ∷ []

abbrev tool_request : RpcRequest ℤ
tool_request = record { id = str "tools/call"; method = "tools/call"; params = "shell" }

-- One line read, and its request answered.
abbrev after_one : Serving ℤ
after_one = take_line runtime opa rpc "tools/call" (record (start lines) { unread = "" ∷ "{" ∷ [] })

abbrev after_two : Serving ℤ
after_two = record after_one {
  running = [];
  responses =
      after_one.responses ++ handle_request runtime opa rpc (pos 1) tool_request server ∷ [];
}

first-running : after_one.running ≡ [] ++ tool_request ∷ []
unfolding take_line take_request start
first-running = refl

reach_two : Reach runtime opa rpc server false none (start lines) after_two
unfolding start
reach_two =
    next (next here (scans "tools/call" ("" ∷ "{" ∷ []) refl refl))
      (answers (pos 1) [] [] tool_request first-running)

Reach-ids_example :
    Perm
      (answered runtime opa rpc after_two
        ++ (open_ids runtime opa rpc after_two ++ ids_of runtime opa rpc after_two.unread))
      (ids_of runtime opa rpc lines)
Reach-ids_example = Reach-ids runtime opa rpc server false none lines after_two reach_two

Reach-finishes_example :
    (steps runtime opa rpc server false none reach_two ≤ 2 * length lines + 1)
    × (((t : Serving ℤ) × Step runtime opa rpc server false none after_two t)
        ⊎ IsFinished runtime opa rpc server none lines after_two)
Reach-finishes_example = Reach-finishes runtime opa rpc server none lines after_two reach_two

handle_request-code_of_example :
    Tells runtime opa rpc tool_request.id
      (handle_request runtime opa rpc (pos 1) tool_request (new_mcp_server engine))
      (code_of runtime opa rpc tool_request)
handle_request-code_of_example = handle_request-code_of runtime opa rpc (pos 1) tool_request engine

abbrev tried : ToolCall ℤ
tried = record { id = "7"; name = "shell"; arguments = some end; raw_args = "{}" }

abbrev params : CallParams ℤ
params = record {
  name = "ghostguard_test_tool";
  arguments = some (field "tool_name" (str "shell") (field "arguments" (obj end) end));
}

name-given : get_arg "tool_name" params.arguments ≡ some (str "shell")
unfolding get_arg get_field
name-given = refl

arguments-given : get_arg "arguments" params.arguments ≡ some (obj end)
unfolding get_arg get_field
arguments-given = refl

handle_request-evaluate_example :
    handle_request runtime opa rpc (pos 1) tool_request (new_mcp_server engine) ≡ record {
      id = tool_request.id;
      result = some (content_text (decision_text (evaluate opa (pos 1) tried engine)));
      error = none;
    }
handle_request-evaluate_example =
    handle_request-evaluate runtime opa rpc (pos 1) tool_request engine params tried end
      (λ i raw. refl) refl refl refl name-given arguments-given refl
