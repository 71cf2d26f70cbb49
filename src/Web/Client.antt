-- ===== src/Web/Client.antt =====
-- web/src/api/client.ts: the middleware of the console's client, and its requests outside of it.
pub mod Laws
use nanas.Prelude.{
  ℕ, Bool, true, false, not, ◌&&◌, ◌||◌, List, [], ◌∷◌, ◌++◌, Option, none, some, if◌then◌else◌,
  ◌==◌, or_else,
}
use nanas.Prelude.Text.{Text, codes, is_empty, starts_with}
use nanas.Prelude.Json.{Json}
use nanas.Http.{
  Headers, get_header, set_header, truthy, authorization, accept_language, Request, Response, is_ok,
}
use nanas.Web.Session.{SessionState, clear}
use nanas.Web.Problem.{
  ProblemMessage, ProblemBody, ProblemError, problem_error, is_problem, is_indonesian,
}

unfoldable pub lang_header : Text → Text
lang_header language = if is_indonesian language then codes "id, en" else codes "en, id"

abbrev pub bearer : Option Text → Text
bearer token = codes "Bearer " ++ or_else token []

-- The last three lines of `onRequest`, which `rawFetch` repeats.
unfoldable pub with_token : SessionState → Headers → Headers
with_token s h =
    if truthy s.token && not (truthy (get_header authorization h))
    then set_header authorization (bearer s.token) h
    else h

unfoldable pub on_request : Text → SessionState → Request → Request
on_request language s request = record request {
  headers = with_token s (set_header accept_language (lang_header language) request.headers);
}

pub data Outcome : Type 0 where
  returned : Response → Outcome
  thrown : ProblemError → Outcome

unfoldable pub network_error : Response → ProblemBody
network_error response =
    let status_text =
      if is_empty response.status_text then codes "Request failed" else response.status_text in
    record {
      type = none;
      code = codes "NETWORK_ERROR";
      message = some (record { id = some (codes "Permintaan gagal"); en = some status_text });
      message_preferred = some status_text;
      instance_uri = none;
      errors = none;
    }

-- `JSON.parse`, and the reading of a value at the type `ProblemBody`, are the platform's.
module _ (parse : Text → Option Json) (as_body : Json → ProblemBody) where
  -- The session after the response, and what the caller gets.
  unfoldable pub on_response : Text → SessionState → Response → SessionState × Outcome
  on_response language s response =
      let body =
        if is_empty response.text then Json.null else or_else (parse response.text) Json.null in
      let s' = if (response.status == 401) && truthy s.token then clear s else s in
      if is_ok response then (s, returned response) else (
        s',
        thrown (
            problem_error language response.status
              (if is_problem body then as_body body else network_error response)),
      )

-- `baseUrl.replace(/\/$/, '')`: one slash at the end goes.
unfoldable pub strip_slash : Text → Text
strip_slash [] = []
strip_slash (c ∷ []) = if c == b'/' then [] else c ∷ []
strip_slash (c ∷ d ∷ s) = c ∷ strip_slash (d ∷ s)

-- `window` is the origin of the page, where there is a window.
unfoldable pub api_origin : (base_url : Text) (window : Option Text) → Text
api_origin base_url window =
    if not (is_empty base_url) then strip_slash base_url else or_else window []

unfoldable pub resolve_api_http_url : (base_url : Text) (window : Option Text) → Text → Text
resolve_api_http_url base_url window given =
    if starts_with given (codes "http://") || starts_with given (codes "https://")
    then given
    else api_origin base_url window
      ++ (if starts_with given (codes "/") then given else codes "/" ++ given)

unfoldable pub auth_header : SessionState → List (Text × Text)
auth_header s = if truthy s.token then (authorization, bearer s.token) ∷ [] else []

unfoldable pub xhr_api_headers : Text → SessionState → List (Text × Text)
xhr_api_headers language s =
    (accept_language, lang_header language) ∷ (codes "Accept", codes "*/*") ∷ auth_header s

-- The request that `rawFetch` hands to `fetch`.
unfoldable pub raw_fetch :
    (base_url : Text) (window : Option Text) (language : Text)
    → SessionState
    → (input method : Text) → Headers
    → Request
raw_fetch base_url window language s input method given = record {
  method = method;
  url = if starts_with input (codes "http") then input else api_origin base_url window ++ input;
  headers = with_token s (set_header accept_language (lang_header language) given);
}
