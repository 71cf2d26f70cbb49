-- ===== src/Functions/Deployments/Tests.antt =====
-- A deployment of the only complete build of two versions.
use nanas.Prelude.{◌≤◌, ◌≡◌, refl, true, false, List, [], ◌∷◌, some, ◌⊎◌, inl, inr, Listed}
use nanas.Prelude.Text.{Text, codes, text_eq, trim}
use nanas.Prelude.Json.{Json, obj}
use nanas.Functions.Deployments.{
  default_spec, VersionRow, Tab, fresh, is_complete, complete_versions, Entry, pick_version,
  enter_concurrency, enter_timeout, enter, enter_all, parse_env_object, deploy_disabled,
}
use nanas.Functions.Deployments.Laws.{text_fields, enter_all-IsReady, parse_env_object-text_fields}

abbrev built : VersionRow
built = record {
  id = codes "1";
  version = codes "1.0";
  runtime = codes "go";
  build_status = codes "complete";
}

abbrev broken : VersionRow
broken = record built { version = codes "2.0"; build_status = codes "failed" }

abbrev versions : List VersionRow
versions = broken ∷ built ∷ []

abbrev entries : List Entry
entries = pick_version built ∷ enter_concurrency 0 ∷ enter_timeout 5 ∷ []

abbrev tab : Tab
tab = record fresh { spec = enter_all entries default_spec }

enter_all-IsReady_example :
    (1 ≤ tab.spec.max_concurrency)
    × (100 ≤ tab.spec.timeout_ms)
    × ((v : VersionRow) × Listed v versions
        × (is_complete v ≡ true)
        × (tab.spec.version ≡ v.version))
unfolding deploy_disabled enter_all enter complete_versions is_complete text_eq
enter_all-IsReady_example =
    enter_all-IsReady (some versions) entries tab false (inl refl, (tt, (tt, tt))) refl refl

abbrev variables : List (Text × Text)
variables = (codes "KEY", codes "v") ∷ []

abbrev reads : Text → Text ⊎ Json
reads s = inr (obj (text_fields variables))

abbrev print : Json → Text
print v = codes "null"

parse_env_object-text_fields_example :
    parse_env_object reads print (codes "{\"KEY\":\"v\"}") ≡ inr (text_fields variables)
unfolding trim
parse_env_object-text_fields_example =
    parse_env_object-text_fields reads print (codes "{\"KEY\":\"v\"}") variables refl
