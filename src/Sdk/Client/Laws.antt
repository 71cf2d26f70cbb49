-- ===== src/Sdk/Client/Laws.antt =====
-- What reaches the server, and what reaches the caller.
use nanas.Prelude.{
  ◌≡◌, ◌≢◌, refl, ap, inl, inr, Bool-cases, true, false, not, ◌&&◌, List, [], ◌∷◌, ◌++◌, Option,
  none, some, if◌then◌else◌, or_else, or_option, arith, ◌⊎◌, ◌≤◌, ◌<◌,
}
use nanas.Prelude.Text.{Text, codes, is_empty, text_eq_iff, lookup}
use nanas.Prelude.Json.{Json}
use nanas.Http.{
  Headers, get_header, set_header, has_header, truthy, authorization, accept_language, Request,
  Response, is_ok, get_header-set_header, same_name,
}
use nanas.Sdk.Problem.{
  PreferredLocale, en, ProblemBody, ProblemError, problem_error, is_problem, pick_problem_message,
}
use nanas.Sdk.Problem.Laws.{pick_problem_message-ne-nil}
use nanas.Sdk.Client.{
  CreateNanasClientOptions, add_missing, bearer_of, on_request, returned, thrown, network_error,
  response_body, on_response,
}

-- The first value that `options.headers` gives a name.
abbrev pub first_given : Text → List (Text × Text) → Option Text
first_given name [] = none
first_given name ((k, v) ∷ given) = if same_name k name then some v else first_given name given

get_header_same :
    (k name : Text) (h : Headers) → same_name k name ≡ true → get_header k h ≡ get_header name h
unfolding get_header
get_header_same k name h e = ap (λ (n : Text). lookup n h) ((text_eq_iff _ _).0 e)

get_header-add_missing :
    (name : Text) (given : List (Text × Text)) (h : Headers)
    → get_header name (add_missing given h) ≡ or_option (get_header name h) (first_given name given)
unfolding add_missing has_header
get_header-add_missing name [] h = ground arith
get_header-add_missing name ((k, v) ∷ given) h = ground (
  arith,
  get_header-add_missing name given h,
  get_header-add_missing name given (set_header k v h),
  get_header-set_header k name v h,
  get_header_same k name h,
)

-- What a request carries under a name before the bearer token is considered: a language asked for
-- in the options, or else what the request had, or else the first value of the options.
abbrev pub own_header : CreateNanasClientOptions → Headers → Text → Option Text
own_header options h name =
    or_option
      (if truthy options.accept_language && same_name accept_language name
        then some (or_else options.accept_language [])
        else get_header name h)
      (first_given name options.headers)

-- Each header that the middleware sends. Under `Authorization` it is the bearer token exactly
-- where there is one that is not empty, and neither the request nor the options set a value that is
-- not empty. Any other header is the language asked for, or else the request's, or else the first
-- of the options.
pub get_header-on_request :
    (options : CreateNanasClientOptions) (request : Request) (name : Text)
    → get_header name (on_request options request).headers ≡ (
        if truthy (bearer_of options)
          && not (truthy (own_header options request.headers name))
          && same_name authorization name
        then some (codes "Bearer " ++ or_else (bearer_of options) [])
        else own_header options request.headers name)
unfolding on_request
get_header-on_request options request name =
    let lang = or_else options.accept_language [] in
    let bearer = codes "Bearer " ++ or_else (bearer_of options) [] in
    let h0 = request.headers in
    let h1 = set_header accept_language lang h0 in
    ground (
      arith,
      get_header-set_header accept_language name lang h0,
      get_header-add_missing name options.headers h0,
      get_header-add_missing name options.headers h1,
      get_header-set_header authorization name bearer (add_missing options.headers h0),
      get_header-set_header authorization name bearer (add_missing options.headers h1),
      get_header_same authorization name (add_missing options.headers h0),
      get_header_same authorization name (add_missing options.headers h1),
    )

-- The error that a failed response is turned into.
abbrev pub failure_body : (Json → ProblemBody) → Json → Response → ProblemBody
failure_body as_body body response =
    if is_problem body then as_body body else network_error response

abbrev pub IsSuccess : Response → Type 0
IsSuccess response = (200 ≤ response.status) × (response.status < 300)

pub IsSuccess-cases :
    (response : Response)
    → IsSuccess response × (is_ok response ≡ true)
      ⊎ (¬ IsSuccess response) × (is_ok response ≡ false)
unfolding is_ok
IsSuccess-cases response = elim (Bool-cases (is_ok response)) [
  | inl h ↦ inl (ground arith, h)
  | inr h ↦ inr (λ s. ground arith, h)
]

-- A response is returned if its status is 200 to 299. Any other is thrown, with the response's
-- status, the server's problem where the body is one and `NETWORK_ERROR` otherwise; a message is
-- shown if the problem's code is not empty.
pub on_response_lem :
    (parse : Text → Option Json) (as_body : Json → ProblemBody) (options : CreateNanasClientOptions)
    (response : Response)
    → IsSuccess response × (on_response parse as_body options response ≡ returned response)
      ⊎ (¬ IsSuccess response)
        × ((e : ProblemError) × (on_response parse as_body options response ≡ thrown e)
            × (e.status ≡ response.status)
            × (e.body ≡ failure_body as_body (response_body parse response) response)
            × ((e.body.code ≡ []) ⊎ (e.text ≢ [])))
unfolding on_response problem_error
on_response_lem parse as_body options response = elim (IsSuccess-cases response) [
  | inl (success, yes_ok) ↦ inl (success, rw yes_ok)
  | inr (failure, not_ok) ↦
      let locale = or_else options.preferred_locale en in
      let body = failure_body as_body (response_body parse response) response in
      inr (
        failure,
        (
          problem_error response.status body locale,
          ground arith,
          refl,
          refl,
          pick_problem_message-ne-nil body locale,
        ),
      )
]

-- A failure that is no problem document shows the same text under both locales: the status text,
-- or "Request failed". The Indonesian text that it carries is never chosen.
pub network_error_message :
    (response : Response) (preferred : PreferredLocale)
    → pick_problem_message (network_error response) preferred
      ≡ (if is_empty response.status_text then codes "Request failed" else response.status_text)
unfolding pick_problem_message network_error
network_error_message response preferred = ground arith
