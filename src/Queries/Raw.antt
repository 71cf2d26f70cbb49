-- ===== src/Queries/Raw.antt =====
-- What the pages make of a query while it loads and after, and the reading of an answer to
-- `rawFetch` that ProjectApiKeysTab.tsx, ProjectMembersTab.tsx, ProjectOverviewTab.tsx,
-- ProjectSettingsTab.tsx, StorageBrowserPage.tsx and triggers/queries.ts (web/src/features) repeat.
-- MetricsPage.tsx does not: it throws an error of its own, whatever the body is.
pub mod Laws
use nanas.Prelude.{
  Bool, List, [], ◌∷◌, ◌++◌, Option, none, some, if◌then◌else◌, or_else, ◌⊎◌, inl, inr,
}
use nanas.Prelude.Text.{Text, codes}
use nanas.Prelude.Json
use nanas.Prelude.Json.{Json}
use nanas.Http.{Headers, Response, is_ok}
use nanas.Web.Problem.{ProblemBody, problem_error, is_problem, Thrown, problem, error}

-- The result of `useQuery`.
pub record Loaded (A : Type 0) : Type 0 where
  pub is_loading : Bool
  pub error_of : Option Thrown
  pub data_of : Option A

-- `await res.json().catch(() => null)`, and what is thrown where the status is none of success:
-- the problem of the body, or an error with a text of the page.
module _ (parse : Text → Option Json) (as_body : Json → ProblemBody) where
  unfoldable pub settle : (language otherwise : Text) → Response → Thrown ⊎ Json
  unfolding is_problem is_ok
  settle language otherwise res =
      let body = or_else (parse res.text) Json.null in
      if is_ok res
      then inr body
      else if is_problem body
      then inl (problem (problem_error language res.status (as_body body)))
      else inl (error otherwise)

-- What is handed to `rawFetch`; the body is text by `JSON.stringify`.
pub record RawRequest : Type 0 where
  pub input : Text
  pub method : Text
  pub headers : Headers
  pub body : Option Json

-- `/v1/projects/${pid}` and what follows it
unfoldable pub of_project : (pid rest : Text) → Text
of_project pid rest = codes "/v1/projects/" ++ (pid ++ rest)

abbrev pub json_headers : Headers
json_headers = (codes "content-type", codes "application/json") ∷ []
