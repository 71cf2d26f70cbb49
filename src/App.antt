-- ===== src/App.antt =====
-- web/src/app/providers.tsx: the theme, and what the query client does with errors. Themes are
-- texts, since the stored one is taken as it is.
pub mod Laws
mod Tests
use nanas.Prelude.{
  ℕ, Bool, true, false, not, ◌&&◌, List, [], ◌∷◌, leb, ltb, ◌==◌, Option, none, some, if◌then◌else◌,
  or_else,
}
use nanas.Prelude.Text.{Text, codes, text_eq}
use nanas.Web.Problem.{Thrown, problem, error, value, problem_message}

-- The cells of `useTheme`, with what is stored, what the system prefers, and whether the document
-- has the class "dark".
pub record Page : Type 0 where
  pub theme : Text
  pub stored : Option Text
  pub prefers_dark : Bool
  pub is_dark : Bool

unfoldable pub resolved : (prefers_dark : Bool) → (theme : Text) → Text
unfolding text_eq
resolved prefers_dark theme =
    if text_eq theme (codes "system")
    then (if prefers_dark then codes "dark" else codes "light")
    else theme

unfoldable pub apply_theme : Text → Page → Page
unfolding resolved text_eq
apply_theme theme p = record p { is_dark = text_eq (resolved p.prefers_dark theme) (codes "dark") }

-- The first of the two effects.
unfoldable pub run_effect : Page → Page
unfolding apply_theme
run_effect p = record (apply_theme p.theme p) { stored = some p.theme }

unfoldable pub mount : (stored : Option Text) → (prefers_dark is_dark : Bool) → Page
unfolding run_effect
mount s d c =
    run_effect
      (record { theme = or_else s (codes "system"); stored = s; prefers_dark = d; is_dark = c })

pub data Event : Type 0 where
  set_theme : Text → Event
  system_changed : (prefers_dark : Bool) → Event

-- The effects run again where the theme is another one; the listener is that of the theme.
unfoldable pub react : Event → Page → Page
unfolding run_effect apply_theme text_eq
react (set_theme t) p = if text_eq t p.theme then p else run_effect (record p { theme = t })
react (system_changed d) p =
    let changed = record p { prefers_dark = d } in
    if text_eq p.theme (codes "system") then apply_theme (codes "system") changed else changed

unfoldable pub react_all : List Event → Page → Page
unfolding react
react_all [] p = p
react_all (e ∷ es) p = react_all es (react e p)

unfoldable pub is_client_error : Thrown → Bool
is_client_error (problem e) = leb 400 e.status && ltb e.status 500
is_client_error (error message) = false
is_client_error (value s) = false

-- `retry` of the queries' options.
unfoldable pub retry : (failure_count : ℕ) → Thrown → Bool
unfolding is_client_error
retry n err = if is_client_error err then false else ltb n 2

unfoldable pub is_401 : Thrown → Bool
is_401 (problem e) = e.status == 401
is_401 (error message) = false
is_401 (value s) = false

-- `onError` of the query cache and of the mutations: the text on display, if there is one.
unfoldable pub query_toast : Thrown → Option Text
unfolding is_401 problem_message
query_toast err = if is_401 err then none else some (problem_message err)

unfoldable pub mutation_toast : Thrown → Option Text
unfolding problem_message
mutation_toast err = some (problem_message err)
