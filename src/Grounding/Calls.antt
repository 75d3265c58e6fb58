-- ===== src/Grounding/Calls.antt =====
-- When a call of tutor/grounding/mcp_client.py has a result, and whom grounding_mcp/server.py lets in.
use cortex_tutor.Prelude.{◌≡◌, ◌↔◌, true, false, Option, none, some, [], ◌++◌, arith, inl, inr}
use cortex_tutor.Prelude.Result.{Result, ok, Result-cases}
use cortex_tutor.Prelude.Text.{Text, codes, is_empty, text_eq, text_eq_iff}
use cortex_tutor.Json.{Json, obj, Fields, get}
use cortex_tutor.Routes.Http.{truthy}
use cortex_tutor.Grounding.Client.{ToolResult, result_data, read_reply, invoke, call, service_gate}

-- A call has a result exactly if the session gave one whose data is an object with no "error"; it
-- never raises.
pub call-some_iff :
    (loads : Text → Result Json) (transport : Result ToolResult) (d : Fields)
    → (call loads transport ≡ some d) ↔ (
        (r : ToolResult) × (transport ≡ ok r)
        × (result_data loads r ≡ ok (some (obj d)))
        × (truthy (get "error" d) ≡ false))
unfolding call invoke read_reply
call-some_iff loads transport d = (
  λ h. elim (Result-cases transport) [
    | inr (e, t) ↦ absurd (ground arith)
    | inl (r, t) ↦ elim (Result-cases (result_data loads r)) [
      | inr (e, u) ↦ absurd (ground arith)
      | inl (v, u) ↦ (r, t, ground arith, ground arith)
    ]
  ],
  λ h. ground arith,
)

-- With a token configured, a request other than that of the liveness path goes on exactly if its
-- header reads "Bearer " and the token.
pub service_gate_iff :
    (decode : Text → Result Text) (token path : Text) (authorization : Option Text) (header : Text)
    → is_empty token ≡ false
    → text_eq path (codes "/healthz") ≡ false
    → decode (elim authorization [ none ↦ [] | some h ↦ h ]) ≡ ok header
    → (service_gate decode (some token) true path authorization ≡ ok none)
      ↔ (header ≡ codes "Bearer " ++ token)
unfolding service_gate
service_gate_iff decode token path authorization header given not_health read =
    ground (arith, text_eq_iff header (codes "Bearer " ++ token))
