-- ===== src/Sdk/Tests.antt =====
-- The client library on concrete requests.
use nanas.Prelude.{◌≡◌, ◌≢◌, ◌⊎◌, [], ◌∷◌, Option, none, some}
use nanas.Prelude.Text.{Text, codes, text_eq, lookup, to_lower}
use nanas.Prelude.Json.{Json}
use nanas.Http.{get_header, authorization, Request, Response}
use nanas.Sdk.Problem.{ProblemBody, ProblemError, PreferredLocale, pick_problem_message}
use nanas.Sdk.Client.{
  CreateNanasClientOptions, bearer_of, on_request, on_response, returned, thrown, response_body,
  network_error,
}
use nanas.Sdk.Client.Laws.{
  get_header-on_request, IsSuccess, failure_body, on_response_lem, network_error_message,
}

abbrev base : Text
base = codes "https://api.example//"

abbrev options : CreateNanasClientOptions
options = record {
  base_url = base;
  token = some (codes "sk_1");
  get_token = none;
  headers = (codes "X-Trace", codes "7") ∷ [];
  accept_language = some (codes "id");
  preferred_locale = none;
}

abbrev request : Request
request = record { method = codes "GET"; url = base; headers = [] }

get_header-on_request_example :
    get_header authorization (on_request options request).headers ≡ some (codes "Bearer sk_1")
unfolding bearer_of text_eq to_lower get_header lookup
get_header-on_request_example = get_header-on_request options request authorization

abbrev no_json : Text → Option Json
no_json s = none

abbrev plain_body : Json → ProblemBody
plain_body v = record {
  type = none;
  code = codes "X";
  message = none;
  message_preferred = none;
  instance_uri = none;
  errors = none;
}

abbrev bad_gateway : Response
bad_gateway = record { status = 502; status_text = codes "Bad Gateway"; text = codes "<html>" }

on_response_lem_example :
    IsSuccess bad_gateway
      × (on_response no_json plain_body options bad_gateway ≡ returned bad_gateway)
    ⊎ (¬ IsSuccess bad_gateway)
      × ((e : ProblemError) × (on_response no_json plain_body options bad_gateway ≡ thrown e)
          × (e.status ≡ bad_gateway.status)
          × (e.body ≡ failure_body plain_body (response_body no_json bad_gateway) bad_gateway)
          × ((e.body.code ≡ []) ⊎ (e.text ≢ [])))
on_response_lem_example = on_response_lem no_json plain_body options bad_gateway

network_error_message_example :
    pick_problem_message (network_error bad_gateway) PreferredLocale.id ≡ codes "Bad Gateway"
network_error_message_example = network_error_message bad_gateway PreferredLocale.id
