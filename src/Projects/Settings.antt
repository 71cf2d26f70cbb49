-- ===== src/Projects/Settings.antt =====
-- web/src/features/projects/ProjectSettingsTab.tsx: the card of the allowlist in this file, the
-- other cards in Settings/Cards. White space is that of ASCII, and so are the letters.
pub mod Cards
pub mod Laws
use nanas.Prelude.{
  ℕ, Bool, true, false, not, ◌&&◌, ◌||◌, List, [], ◌∷◌, map, keep, length, all, Option, none, some,
  if◌then◌else◌, ◌==◌, ltb, ◌⊎◌, inl, inr,
}
use nanas.Prelude.Text.{Text, codes, is_space, is_word, is_digit, is_empty, trim, join}
use nanas.Prelude.Json.{Json, arr, obj, field, end}
use nanas.Web.Problem.{Thrown}
use nanas.Queries.Raw.{RawRequest, of_project, json_headers}
use nanas.Database.Catalog.{texts}

-- `[\s,]`
unfoldable pub is_separator : ℕ → Bool
unfolding is_space
is_separator c = is_space c || c == b','

unfoldable pub starts_apart : Text → Bool
unfolding is_separator
starts_apart [] = false
starts_apart (c ∷ s) = is_separator c

-- `text.split(/[\s,]+/)`: a run of separators divides once.
unfoldable pub split_apart : Text → List Text
unfolding is_separator starts_apart
split_apart [] = [] ∷ []
split_apart (c ∷ s) =
    let rest = split_apart s in
    if is_separator c
    then (if starts_apart s then rest else [] ∷ rest)
    else elim rest [ [] ↦ (c ∷ []) ∷ [] | p ∷ ps ↦ (c ∷ p) ∷ ps ]

unfoldable pub tables_of : (tables_raw : Text) → List Text
unfolding split_apart trim
tables_of tables_raw = keep (λ s. not (is_empty s)) (map trim (split_apart tables_raw))

-- `/^[a-z_][a-z0-9_]*$/i`
unfoldable pub is_ident : Text → Bool
unfolding is_word is_digit
is_ident [] = false
is_ident (c ∷ s) = (is_word c && not (is_digit c)) && all is_word s

unfoldable pub invalid : (tables_raw : Text) → List Text
unfolding is_ident tables_of
invalid tables_raw = keep (λ t. not (is_ident t)) (tables_of tables_raw)

pub record AllowlistCard : Type 0 where
  pub tables_raw : Text
  pub error : Option Thrown

unfoldable pub fresh : AllowlistCard
fresh = record { tables_raw = []; error = none }

unfoldable pub enter : Text → AllowlistCard → AllowlistCard
enter value card = record card { tables_raw = value }

-- The note on invalid identifiers, where there is one.
unfoldable pub hint : AllowlistCard → Option Text
unfolding invalid join
hint card =
    if ltb 0 (length (invalid card.tables_raw))
    then some (join (codes ", ") (invalid card.tables_raw))
    else none

unfoldable pub save_disabled : (is_pending : Bool) → AllowlistCard → Bool
unfolding invalid
save_disabled is_pending card = is_pending || ltb 0 (length (invalid card.tables_raw))

unfoldable pub save_request : (pid : Text) → AllowlistCard → RawRequest
unfolding tables_of of_project
save_request pid card = record {
  input = of_project pid (codes "/settings/data-allowlist");
  method = codes "PATCH";
  headers = json_headers;
  body = some (obj (field (codes "tables") (arr (texts (tables_of card.tables_raw))) end));
}

-- A save makes no query stale; what was entered stays.
unfoldable pub saved : (answer : Thrown ⊎ Json) → AllowlistCard → AllowlistCard
saved (inl err) card = record card { error = some err }
saved (inr body) card = record card { error = none }
