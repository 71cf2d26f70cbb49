-- ===== src/Queries/Raw/Laws.antt =====
-- Two readings of an answer: that of the pages which test the body of an answer to `rawFetch` for a
-- problem, and that of the middleware.
use nanas.Prelude.{Option, if◌then◌else◌, or_else, ◌⊎◌, inl, inr}
use nanas.Prelude.Text.{Text}
use nanas.Prelude.Json.{Json}
use nanas.Http.{Response}
use nanas.Web.Problem.{Thrown, problem, error, is_problem}
use nanas.Web.Client.{Outcome}

abbrev pub body_of : (parse : Text → Option Json) → Response → Json
body_of parse res = or_else (parse res.text) Json.null

-- What `rawFetch` makes of the outcome of the middleware.
abbrev pub reread : (body : Json) → (otherwise : Text) → Outcome → Thrown ⊎ Json
reread body otherwise (Outcome.returned r) = inr body
reread body otherwise (Outcome.thrown e) =
    if is_problem body then inl (problem e) else inl (error otherwise)
