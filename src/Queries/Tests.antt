-- ===== src/Queries/Tests.antt =====
-- The queries of a project with one function.
use nanas.Prelude.{ℕ, ◌≡◌, refl, true, false, [], Option, none, some}
use nanas.Prelude.Text.{Text, codes}
use nanas.Prelude.Json.{Json}
use nanas.Http.{Response}
use nanas.Web.Problem.{ProblemBody}
use nanas.Web.Session.{SessionState, jwt}
use nanas.Queries.{run_effects, is_stale}
use nanas.Queries.Functions.{deployment_by_id, deployments_key, list_key, detail_key, versions_key}
use nanas.Queries.Mutations.{deployed, rolled_back}
use nanas.Queries.Laws.{FunctionQueries, OtherQueries, deployed-stale, rolled_back-stale}
use nanas.Queries.Sample.{covers, covers-IsPrefixTest, unreadable, stringify, accepts, empty_world}
use nanas.Queries.Keys.{Hook, deployment_hook, query_of, query_key_determines}

deployed-stale_example :
    let (done, s) =
      run_effects unreadable stringify accepts 0
        (deployed (codes "p") (codes "f"))
        (record { world = empty_world; invalidated = [] }) in
    (done ≡ true)
    × FunctionQueries (codes "p") (λ k. is_stale covers s.invalidated k ≡ true)
    × FunctionQueries (codes "pq") (λ k. is_stale covers s.invalidated k ≡ false)
    × OtherQueries (codes "p") (λ k. is_stale covers s.invalidated k ≡ false)
deployed-stale_example =
    deployed-stale unreadable stringify accepts 0 covers (codes "p") (codes "f") (codes "pq")
      empty_world covers-IsPrefixTest (λ e. cc (e))

rolled_back-stale_example :
    let (done, s) =
      run_effects unreadable stringify accepts 0
        (rolled_back (codes "p") (codes "f"))
        (record { world = empty_world; invalidated = [] }) in
    (is_stale covers s.invalidated (deployments_key (codes "p") (codes "f")) ≡ true)
    × ((page : ℕ) (filters : Json)
        → is_stale covers s.invalidated (list_key (codes "p") page filters) ≡ false)
    × ((f : Text) → is_stale covers s.invalidated (detail_key (codes "p") f) ≡ false)
    × ((f : Text) → is_stale covers s.invalidated (versions_key (codes "p") f) ≡ false)
rolled_back-stale_example =
    rolled_back-stale unreadable stringify accepts 0 covers (codes "p") (codes "f") empty_world
      covers-IsPrefixTest

abbrev no_json : Text → Option Json
no_json s = none

abbrev plain_body : Json → ProblemBody
plain_body v = record {
  type = none;
  code = codes "X";
  message = none;
  message_preferred = none;
  instance_uri = none;
  errors = none;
}

abbrev not_found : Response
not_found = record { status = 404; status_text = codes "Not Found"; text = [] }

abbrev session : SessionState
session = record { token = none; mode = jwt; user = none }

-- A deployment that is shown, and the same one that is watched at another interval.
abbrev shown : Hook
shown = deployment_hook (some (codes "d")) none

abbrev watched : Hook
watched = deployment_hook (some (codes "d")) (some (some 500))

query_key_determines_example : (query_of shown).request ≡ (query_of watched).request
unfolding query_of deployment_by_id
query_key_determines_example = query_key_determines shown watched 20 refl refl refl refl
