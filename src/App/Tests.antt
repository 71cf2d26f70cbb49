-- ===== src/App/Tests.antt =====
-- A stored theme with some events, and a query that is answered at the second try.
use nanas.Prelude.{ℕ, zero, suc, ◌⊎◌, inl, inr}
use nanas.Prelude.Text.{codes}
use nanas.Prelude.Json.{Json, null}
use nanas.Web.Problem.{Thrown, error}

abbrev answers : ℕ → Thrown ⊎ Json
answers zero = inl (error (codes "Failed to fetch"))
answers (suc k) = inr null

abbrev results : ℕ → Thrown ⊎ Json
results k = inr null
