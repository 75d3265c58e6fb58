-- ===== src/Grounding/Client.antt =====
-- tutor/grounding/mcp_client.py: what a call of a tool comes to, and the service token of
-- grounding_mcp/server.py. The MCP session is the parameter `transport`, JSON's parser is `loads`.
use cortex_tutor.Prelude.{ℕ, Bool, not, Option, none, some, List, [], ◌∷◌, ◌++◌, if◌then◌else◌}
use cortex_tutor.Prelude.Result.{Result, ok, err, ◌>>=◌}
use cortex_tutor.Prelude.Text.{Text, codes, is_empty, text_eq}
use cortex_tutor.Json.{Json, obj, Fields, get}
use cortex_tutor.Routes.Http.{truthy}

-- `result.structuredContent`, and for each part of `result.content` its text, if it has one
pub record ToolResult : Type 0 where
  pub structured : Option Json
  pub content : List (Option Text)

abbrev pub parsed : (Text → Result Json) → Text → Result (Option Json)
parsed loads text = loads text >>= λ v. ok (some v)

-- `json.loads(text) if text else None`, of the first part
unfoldable pub first_content : (Text → Result Json) → List (Option Text) → Result (Option Json)
first_content loads [] = ok none
first_content loads (none ∷ rest) = ok none
first_content loads (some text ∷ rest) = if is_empty text then ok none else parsed loads text

unfoldable pub read_reply : Option Json → Option Fields
unfolding truthy get
read_reply (some (obj d)) = if truthy (get "error" d) then none else some d
read_reply _ = none

unfoldable pub result_data : (Text → Result Json) → ToolResult → Result (Option Json)
unfolding first_content
result_data loads result = elim result.structured [
  | some v ↦ ok (some v)
  | none ↦ first_content loads result.content
]

-- `_invoke`, after the session's call
unfoldable pub invoke : (Text → Result Json) → Result ToolResult → Result (Option Fields)
unfolding result_data read_reply
invoke loads transport = do result ← transport; v ← result_data loads result; ok (read_reply v)

-- `_call`: every exception, the timeout included, comes to nothing.
unfoldable pub call : (Text → Result Json) → Result ToolResult → Option Fields
unfolding invoke
call loads transport = elim (invoke loads transport) [ ok d ↦ d | err e ↦ none ]

-- `_ServiceTokenMiddleware`: what it answers, or `none` to go on. `decode` is `bytes.decode`.
unfoldable pub service_gate :
    (Text → Result Text) → Option Text → Bool → Text → Option Text → Result (Option ℕ)
service_gate decode token is_http path authorization =
    if not is_http
    then ok none
    else if text_eq path (codes "/healthz")
    then ok (some 200)
    else elim token [
      | none ↦ ok none
      | some t ↦ if is_empty t then ok none else do
        header ← decode (elim authorization [ none ↦ [] | some h ↦ h ])
        ok (if text_eq header (codes "Bearer " ++ t) then none else some 401)
    ]
