-- ===== src/App/Laws.antt =====
-- The theme on display, and how often a query is asked.
use nanas.Prelude.{◌≡◌, Bool, true, some, if◌then◌else◌, ◌⊎◌, inl, inr}
use nanas.Prelude.Text.{Text, codes, text_eq}
use nanas.Prelude.Json.{Json}
use nanas.Web.Problem.{Thrown}
use nanas.App.{Page, resolved, is_client_error}

-- The document shows the theme, and the theme is stored.
pub record IsApplied (p : Page) : Type 0 where
  pub shown : p.is_dark ≡ text_eq (resolved p.prefers_dark p.theme) (codes "dark")
  pub kept : p.stored ≡ some p.theme

-- One try of a query: an error that is not retried is the result, and so is an answer.
abbrev pub next_try : (Thrown → Bool) → (answer later : Thrown ⊎ Json) → Thrown ⊎ Json
next_try again (inl err) later = if again err then later else inl err
next_try again (inr data_value) later = inr data_value

abbrev pub is_final : Thrown ⊎ Json → Bool
is_final (inl err) = is_client_error err
is_final (inr data_value) = true
