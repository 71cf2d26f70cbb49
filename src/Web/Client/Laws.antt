-- ===== src/Web/Client/Laws.antt =====
-- What the console sends, what it does with a failure, and the addresses that it builds.
use nanas.Prelude.{
  ℕ, ◌≡◌, ◌≢◌, refl, Bool, true, false, not, ◌&&◌, ◌==◌, ◌⊎◌, inl, inr, ◌++◌, Option, some, arith,
  if◌then◌else◌, or_else, Bool-cases,
}
use nanas.Prelude.Text.{
  Text, codes, is_empty, starts_with, starts_with-append_left, text_eq, to_lower,
}
use nanas.Prelude.Json.{Json}
use nanas.Http.{
  Headers, get_header, set_header, truthy, authorization, accept_language, Request, Response,
  get_header-set_header, same_name,
}
use nanas.Sdk.Client.Laws.{IsSuccess, IsSuccess-cases}
use nanas.Web.Session.{SessionState, clear}
use nanas.Web.Problem.{ProblemBody, ProblemError, problem_error, is_problem}
use nanas.Web.Client.{
  lang_header, bearer, with_token, on_request, returned, thrown, network_error, on_response,
  api_origin, resolve_api_http_url, raw_fetch,
}

authorization_kept :
    (v : Text) (h : Headers)
    → get_header authorization (set_header accept_language v h) ≡ get_header authorization h
unfolding text_eq to_lower
authorization_kept v h = get_header-set_header accept_language authorization v h

-- Each header of a request of the typed client: the language replaces the caller's, the session's
-- token is sent where there is one and the caller set no `Authorization` that is not empty, and
-- every other header is the caller's. A raw request carries the same headers.
pub get_header-console_request :
    (language : Text) (s : SessionState) (request : Request) (name : Text) (base_url : Text)
    (window : Option Text) (input method : Text)
    → (get_header name (on_request language s request).headers ≡ (
        if truthy s.token
          && not (truthy (get_header authorization request.headers))
          && same_name authorization name
        then some (bearer s.token)
        else if same_name accept_language name
        then some (lang_header language)
        else get_header name request.headers))
      × (get_header name (raw_fetch base_url window language s input method request.headers).headers
          ≡ get_header name (on_request language s request).headers)
unfolding on_request with_token raw_fetch
get_header-console_request language s request name base_url window input method =
    let lang = lang_header language in
    let h1 = set_header accept_language lang request.headers in
    (
      ground (
        arith,
        authorization_kept lang request.headers,
        get_header-set_header accept_language name lang request.headers,
        get_header-set_header authorization name (bearer s.token) h1,
      ),
      refl,
    )

not_signed_out :
    (status : ℕ) (signed_in : Bool)
    → ((status == 401) && signed_in) ≡ false
    → (status ≢ 401) ⊎ (signed_in ≡ false)
not_signed_out status true h = inl (λ e. ground arith)
not_signed_out status false h = inr refl

-- A response of status 200 to 299 is returned and leaves the session alone. Any other is thrown
-- with its status; it signs the session out if the status is 401 and there is a token, and leaves
-- it alone otherwise.
pub on_response-session :
    (parse : Text → Option Json) (as_body : Json → ProblemBody) (language : Text) (s : SessionState)
    (response : Response)
    → IsSuccess response × (on_response parse as_body language s response ≡ (s, returned response))
      ⊎ (¬ IsSuccess response)
        × ((e : ProblemError) × (e.status ≡ response.status)
            × ((response.status ≡ 401)
                  × (truthy s.token ≡ true)
                  × (on_response parse as_body language s response ≡ (clear s, thrown e))
                ⊎ ((response.status ≢ 401) ⊎ (truthy s.token ≡ false))
                  × (on_response parse as_body language s response ≡ (s, thrown e))))
unfolding on_response problem_error
on_response-session parse as_body language s response = elim (IsSuccess-cases response) [
  | inl (success, yes_ok) ↦ inl (success, rw yes_ok)
  | inr (failure, not_ok) ↦
      let body =
        if is_empty response.text then Json.null else or_else (parse response.text) Json.null in
      inr (
        failure,
        (
          problem_error language response.status
              (if is_problem body then as_body body else network_error response),
          refl,
          elim (Bool-cases ((response.status == 401) && truthy s.token)) [
            | inl h ↦ inl (ground arith, ground arith, rw (not_ok, h))
            | inr h ↦ inr (not_signed_out response.status (truthy s.token) h, rw (not_ok, h))
          ],
        ),
      )
]

abbrev pub IsAbsolute : Text → Type 0
IsAbsolute address =
    (starts_with address (codes "http://") ≡ true) ⊎ (starts_with address (codes "https://") ≡ true)

absolute_kept :
    (base_url : Text) (window : Option Text) (address : Text)
    → IsAbsolute address
    → resolve_api_http_url base_url window address ≡ address
unfolding resolve_api_http_url
absolute_kept base_url window address h = ground arith

IsAbsolute-append : (s r : Text) → IsAbsolute s → IsAbsolute (s ++ r)
IsAbsolute-append s r (inl h) = inl (starts_with-append_left s r (codes "http://") h)
IsAbsolute-append s r (inr h) = inr (starts_with-append_left s r (codes "https://") h)

resolved :
    (base_url : Text) (window : Option Text) (given : Text)
    → IsAbsolute (api_origin base_url window)
    → IsAbsolute (resolve_api_http_url base_url window given)
unfolding resolve_api_http_url
resolved base_url window given h =
    let origin = api_origin base_url window in
    ground
      (arith, IsAbsolute-append origin given h, IsAbsolute-append origin (codes "/" ++ given) h)

-- Where the origin of the API is absolute, so is every resolved address, and resolving it again
-- changes nothing: an absolute address is used as it stands.
pub resolve_api_http_url-IsAbsolute :
    (base_url : Text) (window : Option Text) (given : Text)
    → IsAbsolute (api_origin base_url window)
    → IsAbsolute (resolve_api_http_url base_url window given)
      × (resolve_api_http_url base_url window (resolve_api_http_url base_url window given)
          ≡ resolve_api_http_url base_url window given)
resolve_api_http_url-IsAbsolute base_url window given h =
    let a = resolved base_url window given h in (a, absolute_kept base_url window _ a)
