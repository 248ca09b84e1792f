-- ===== src/Tests/Api.antt =====
-- The request client at concrete responses.
use poolx.Common.{ℕ, true, false, String, some, none, [], ◌∷◌, ◌≡◌, ◌↔◌}
use poolx.Api.{ApiEnvelope, unreadable, envelope, resolved, Response, api_result, RequestInit}
use poolx.Api.Laws.{api_result_iff}

abbrev as_word : ℕ → String
as_word n = "n"

abbrev same : String → String
same s = s

abbrev three : ApiEnvelope ℕ
three = record { success = true; message = ""; content = 3 }

abbrev answer : Response ℕ
answer = record { ok = true; status = 200; body = envelope three }

abbrev broken : Response ℕ
broken = record { ok = false; status = 502; body = unreadable }

abbrev upload : RequestInit
upload = record { method = some "POST"; headers = none; form_data = true; cache = none }

abbrev with_headers : RequestInit
with_headers = record {
  method = some "POST";
  headers = some (("x-request-id", "7") ∷ []);
  form_data = false;
  cache = none;
}

api_result_iff_example : (api_result as_word answer ≡ resolved 3) ↔ (
    (true ≡ true)
    × (e : ApiEnvelope ℕ) × (envelope three ≡ envelope e)
    × (e.success ≡ true)
    × (e.content ≡ 3))
api_result_iff_example = api_result_iff as_word answer 3
