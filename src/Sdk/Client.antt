-- ===== src/Sdk/Client.antt =====
-- packages/sdk/src/client.ts: the middleware of the typed client. The client itself and its
-- transport are `openapi-fetch`; what is modelled is what the middleware does to each request and
-- each response.
pub mod Laws
use nanas.Prelude.{
  Bool, true, false, not, ◌&&◌, List, [], ◌∷◌, ◌++◌, Option, none, some, if◌then◌else◌, or_else,
}
use nanas.Prelude.Text.{Text, codes, is_empty}
use nanas.Prelude.Json.{Json}
use nanas.Http.{
  Headers, get_header, set_header, has_header, truthy, authorization, accept_language, Request,
  Response, is_ok,
}
use nanas.Sdk.Problem.{
  PreferredLocale, en, ProblemMessage, ProblemBody, ProblemError, problem_error, is_problem,
}
use nanas.Sdk.PublicFn.{normalize_base_url}

-- `get_token` is what the function of that name resolves to; the outer `none` is a missing
-- function.
pub record CreateNanasClientOptions : Type 0 where
  pub base_url : Text
  pub token : Option Text
  pub get_token : Option (Option Text)
  pub headers : List (Text × Text)
  pub accept_language : Option Text
  pub preferred_locale : Option PreferredLocale

-- The loop over `options.headers`.
unfoldable pub add_missing : List (Text × Text) → Headers → Headers
add_missing [] h = h
add_missing ((k, v) ∷ given) h = add_missing given (if has_header k h then h else set_header k v h)

-- The bearer token of a request: the static one, or else the one that `getToken` resolves to.
unfoldable pub bearer_of : CreateNanasClientOptions → Option Text
bearer_of options =
    if not (truthy options.token)
    then elim options.get_token [ none ↦ options.token | some resolved ↦ resolved ]
    else options.token

unfoldable pub on_request : CreateNanasClientOptions → Request → Request
on_request options request =
    let h0 = request.headers in
    let h1 =
      if truthy options.accept_language
      then set_header accept_language (or_else options.accept_language []) h0
      else h0 in
    let h2 = add_missing options.headers h1 in
    let bearer = bearer_of options in
    let h3 =
      if truthy bearer && not (truthy (get_header authorization h2))
      then set_header authorization (codes "Bearer " ++ or_else bearer []) h2
      else h2 in
    record request { headers = h3 }

-- What the middleware does with a response.
pub data Outcome : Type 0 where
  returned : Response → Outcome
  thrown : ProblemError → Outcome

-- The body of an error that is no problem document.
unfoldable pub network_error : Response → ProblemBody
network_error response =
    let status_text =
      if is_empty response.status_text then codes "Request failed" else response.status_text in
    record {
      type = none;
      code = codes "NETWORK_ERROR";
      message =
          some (record { id_text = some (codes "Permintaan gagal"); en_text = some status_text });
      message_preferred = some status_text;
      instance_uri = none;
      errors = none;
    }

-- `JSON.parse` (`none` where it throws), and the reading of a parsed value at the type
-- `ProblemBody`, are the platform's.
module _ (parse : Text → Option Json) where
  -- `body`: null unless the text is not empty and parses.
  unfoldable pub response_body : Response → Json
  response_body response =
      if is_empty response.text then Json.null else or_else (parse response.text) Json.null

module _ (parse : Text → Option Json) (as_body : Json → ProblemBody) where
  unfoldable pub on_response : CreateNanasClientOptions → Response → Outcome
  on_response options response =
      let locale = or_else options.preferred_locale en in
      let body = response_body parse response in
      if is_ok response
      then returned response
      else if is_problem body
      then thrown (problem_error response.status (as_body body) locale)
      else thrown (problem_error response.status (network_error response) locale)

-- `baseUrl` of the bundle that `createNanasClient` returns.
unfoldable pub client_base_url : CreateNanasClientOptions → Text
client_base_url options = normalize_base_url options.base_url
