-- ===== src/Projects/Tests.antt =====
-- The settings and the keys of a project on concrete values.
use nanas.Prelude.{◌≡◌, refl, inl, inr, false, List, [], ◌∷◌, none, some}
use nanas.Prelude.Text.{Text, codes, join, text_eq}
use nanas.Prelude.Json.{Fields, obj, field, end, str, property}
use nanas.Web.Problem.{error}
use nanas.Projects.Settings.{is_separator, is_ident, tables_of, AllowlistCard, save_disabled}
use nanas.Projects.Settings.Laws.{tables_of-join}
use nanas.Projects.ApiKeys.{Tab, Event, set_name, dismiss, mint_settled, revoke_settled, react_all}
use nanas.Projects.ApiKeys as ApiKeys
use nanas.Projects.ApiKeys.Laws.{react_all-plain_key}

abbrev names : List Text
names = codes "orders" ∷ codes "audit_log" ∷ []

abbrev card : AllowlistCard
card = record { tables_raw = codes "orders, \taudit_log"; error = none }

tables_of-join_example : (tables_of card.tables_raw ≡ names) × (save_disabled false card ≡ false)
unfolding is_separator is_ident join
tables_of-join_example =
    tables_of-join (codes ", \t") names card (refl, refl) (refl, (refl, tt)) refl

abbrev made : Fields
made = field (codes "id") (str (codes "1")) (field (codes "key") (str (codes "nk_1")) end)

abbrev calm : List Event
calm = set_name (codes "ci") ∷ revoke_settled (inl (error (codes "Failed"))) ∷ []

abbrev quiet : List Event
quiet = mint_settled (inl (error (codes "Failed"))) ∷ dismiss ∷ []

react_all-plain_key_example :
    ((react_all (mint_settled (inr (obj made)) ∷ calm) ApiKeys.fresh).plain_key
      ≡ some (record { id = some (str (codes "1")); key = some (str (codes "nk_1")) }))
    × ((react_all (dismiss ∷ quiet) ApiKeys.fresh).plain_key ≡ none)
unfolding property text_eq
react_all-plain_key_example =
    react_all-plain_key made ApiKeys.fresh calm quiet (tt, (tt, tt)) (tt, (tt, tt))
