-- ===== src/Proxy/Extract.antt =====
-- internal/proxy/intercept.go: which requests are for an AI provider, and the tool calls and results
-- in their bodies. `Codec` stands for encoding/json on the types that the code decodes into; `none`
-- is an error.
use ghost_guard.Prelude.{
  String, Bool, false, not, ◌||◌, ◌&&◌, Option, none, some, List, [], ◌∷◌, ◌++◌, map, if◌then◌else◌,
  ◌==◌, ◌&◌, contains, any, length, ltb,
}
use ghost_guard.Dict.{Dict}
use ghost_guard.Model.{Args, ToolCall, ToolResult}

pub record FunctionCall : Type 0 where
  pub id : String
  pub name : String
  pub arguments : String

pub record OpenAiBody : Type 0 where
  pub tool_calls : List FunctionCall
  pub messages : List (List FunctionCall)

pub record AnthropicContent (F : Type 0) : Type 0 where
  pub kind : String  -- Type
  pub name : String
  pub input : Args F

pub record GeminiCall (F : Type 0) : Type 0 where
  pub name : String
  pub args : Args F

-- A choice of a response: the identifiers of its tool calls, and its content.
pub record OpenAiChoice : Type 0 where
  pub call_ids : List String
  pub content : String

pub record AnthropicBlock : Type 0 where
  pub kind : String  -- Type
  pub tool_use_id : String
  pub content : String
  pub is_error : Bool

pub record Codec (F : Type 0) : Type 0 where
  pub openai_body : String → Option OpenAiBody
  pub anthropic_body : String → Option (List (List (AnthropicContent F)))
  pub gemini_body : String → Option (List (List (Option (GeminiCall F))))
  pub openai_response : String → Option (List OpenAiChoice)
  pub anthropic_response : String → Option (List AnthropicBlock)
  -- what the variable holds after json.Unmarshal, an error dropped
  pub decode_args : String → Args F
  -- json.Marshal, an error dropped
  pub encode_args : Args F → String

-- http.Header. `canonical` is textproto.CanonicalMIMEHeaderKey.
abbrev pub Header : Type 0
Header = Dict (List String)

-- Header.Get: the first value, or "".
abbrev pub first_value : Option (List String) → String
first_value none = ""
first_value (some []) = ""
first_value (some (v ∷ vs)) = v

unfoldable pub is_ai_endpoint : List String → String → String → Bool
is_ai_endpoint target_hosts host path =
    any (λ target. contains host target) target_hosts
    || (contains path "/v1/chat/completions" || contains path "/messages")

module _ {F : Type 0} (codec : Codec F) where
  unfoldable pub openai_call : FunctionCall → ToolCall F
  openai_call tc = record {
    id = tc.id;
    name = tc.name;
    arguments = codec.decode_args tc.arguments;
    raw_args = tc.arguments;
  }

  unfoldable pub openai_messages : List (List FunctionCall) → List (ToolCall F)
  unfolding openai_call
  openai_messages [] = []
  openai_messages (msg ∷ msgs) = map openai_call msg ++ openai_messages msgs

  unfoldable pub parse_openai_tool_calls : String → List (ToolCall F)
  unfolding openai_messages openai_call
  parse_openai_tool_calls body = elim (codec.openai_body body) [
    | none ↦ []
    | some raw ↦ map openai_call raw.tool_calls ++ openai_messages raw.messages
  ]

  unfoldable pub anthropic_calls : List (AnthropicContent F) → List (ToolCall F)
  anthropic_calls [] = []
  anthropic_calls (content ∷ contents) =
      let rest = anthropic_calls contents in
      if content.kind == "tool_use"
      then record {
        id = "tool-" & content.name;
        name = content.name;
        arguments = content.input;
        raw_args = codec.encode_args content.input;
      }
        ∷ rest
      else rest

  unfoldable pub anthropic_messages : List (List (AnthropicContent F)) → List (ToolCall F)
  unfolding anthropic_calls
  anthropic_messages [] = []
  anthropic_messages (msg ∷ msgs) = anthropic_calls msg ++ anthropic_messages msgs

  unfoldable pub parse_anthropic_tool_calls : String → List (ToolCall F)
  unfolding anthropic_messages
  parse_anthropic_tool_calls body = elim (codec.anthropic_body body) [
    | none ↦ []
    | some messages ↦ anthropic_messages messages
  ]

  unfoldable pub gemini_calls : List (Option (GeminiCall F)) → List (ToolCall F)
  gemini_calls [] = []
  gemini_calls (none ∷ parts) = gemini_calls parts
  gemini_calls (some call ∷ parts) =
      record {
        id = "gemini-" & call.name;
        name = call.name;
        arguments = call.args;
        raw_args = codec.encode_args call.args;
      }
      ∷ gemini_calls parts

  unfoldable pub gemini_contents : List (List (Option (GeminiCall F))) → List (ToolCall F)
  unfolding gemini_calls
  gemini_contents [] = []
  gemini_contents (parts ∷ contents) = gemini_calls parts ++ gemini_contents contents

  unfoldable pub parse_gemini_tool_calls : String → List (ToolCall F)
  unfolding gemini_contents
  parse_gemini_tool_calls body = elim (codec.gemini_body body) [
    | none ↦ []
    | some contents ↦ gemini_contents contents
  ]

  -- `version` is r.Header.Get("anthropic-version").
  unfoldable pub extract_tool_calls : String → String → String → String → List (ToolCall F)
  unfolding parse_openai_tool_calls parse_anthropic_tool_calls parse_gemini_tool_calls
  extract_tool_calls path host version body =
      (if contains path "/chat/completions" then parse_openai_tool_calls body else [])
      ++ ((if contains path "/messages" && not (version == "")
            then parse_anthropic_tool_calls body
            else [])
          ++ (if contains host "generativelanguage.googleapis.com"
              then parse_gemini_tool_calls body
              else []))

  unfoldable pub openai_results : List OpenAiChoice → List ToolResult
  openai_results [] = []
  openai_results (choice ∷ choices) =
      map (λ id. record { tool_call_id = id; content = choice.content; is_error = false })
        choice.call_ids
      ++ openai_results choices

  unfoldable pub anthropic_results : List AnthropicBlock → List ToolResult
  anthropic_results [] = []
  anthropic_results (block ∷ blocks) =
      let rest = anthropic_results blocks in
      if block.kind == "tool_result"
      then record {
        tool_call_id = block.tool_use_id;
        content = block.content;
        is_error = block.is_error;
      }
        ∷ rest
      else rest

  -- What the first format gives, an error giving nothing.
  abbrev from_openai : String → List ToolResult
  from_openai body = elim (codec.openai_response body) [
    | none ↦ []
    | some choices ↦ openai_results choices
  ]

  abbrev from_anthropic : String → List ToolResult
  from_anthropic body = elim (codec.anthropic_response body) [
    | none ↦ []
    | some blocks ↦ anthropic_results blocks
  ]

  -- The results of the first format if it gives any, else those of the second.
  unfoldable pub extract_tool_results : String → List ToolResult
  unfolding openai_results anthropic_results
  extract_tool_results body =
      let results = from_openai body in
      if ltb 0 (length results) then results else results ++ from_anthropic body
