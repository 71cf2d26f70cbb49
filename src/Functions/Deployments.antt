-- ===== src/Functions/Deployments.antt =====
-- web/src/features/functions/DeploymentsTab.tsx: the form of a deployment, deploying and rolling
-- back. JSON.parse (with the message where it throws), JSON.stringify and the decimal digits of a
-- number are parameters. A number that is entered is whole; a negative one, and a text that is no
-- number, count as zero.
pub mod View
pub mod Laws
mod Tests
use nanas.Prelude.{
  ℕ, zero, suc, Bool, true, false, not, ◌&&◌, ◌||◌, List, [], ◌∷◌, ◌++◌, map, keep, find, take,
  length, Option, none, some, if◌then◌else◌, max, leb, or_else, and_then, is_some, ◌⊎◌, inl, inr,
}
use nanas.Prelude.Text.{Text, codes, text_eq, is_empty, trim}
use nanas.Prelude.Json.{Json, Fields, str, num, obj, field, end}
use nanas.Http.{truthy}
use nanas.Web.Problem
use nanas.Web.Problem.{Thrown}
use nanas.Queries.{ApiRequest, Effect, Query}
use nanas.Queries.Functions.{deployment_by_id}
use nanas.Queries.Mutations.{deploy, deployed, rollback, rolled_back}

pub data Strategy : Type 0 where
  rolling : Strategy
  canary : Strategy
  recreate : Strategy

abbrev pub strategy_text : Strategy → Text
strategy_text rolling = codes "rolling"
strategy_text canary = codes "canary"
strategy_text recreate = codes "recreate"

pub record DeploySpec : Type 0 where
  pub version : Text
  pub region : Text
  pub strategy : Strategy
  pub cpu : Text
  pub memory : Text
  pub max_concurrency : ℕ
  pub env_text : Text
  pub health_check_path : Text
  pub timeout_ms : ℕ

unfoldable pub default_spec : DeploySpec
default_spec = record {
  version = [];
  region = codes "default";
  strategy = rolling;
  cpu = codes "200m";
  memory = codes "256Mi";
  max_concurrency = 10;
  env_text = codes "{}";
  health_check_path = codes "/_health";
  timeout_ms = 5000;
}

-- What the tab reads of a version.
pub record VersionRow : Type 0 where
  pub id : Text
  pub version : Text
  pub runtime : Text
  pub build_status : Text

pub record Tab : Type 0 where
  pub spec : DeploySpec
  pub error : Option Thrown
  pub active_id : Option Text

unfoldable pub fresh : Tab
fresh = record { spec = default_spec; error = none; active_id = none }

-- The deployment that is watched.
unfoldable pub active_query : Tab → Query
unfolding deployment_by_id
active_query tab =
    deployment_by_id tab.active_id (some (if truthy tab.active_id then some 1500 else none))

unfoldable pub is_complete : VersionRow → Bool
is_complete v = text_eq v.build_status (codes "complete")

unfoldable pub complete_versions : Option (List VersionRow) → List VersionRow
unfolding is_complete
complete_versions versions = keep is_complete (or_else versions [])

-- The fields of the form; a version is chosen from those that are offered.
pub data Entry : Type 0 where
  pick_version : VersionRow → Entry
  pick_strategy : Strategy → Entry
  enter_region : Text → Entry
  enter_cpu : Text → Entry
  enter_memory : Text → Entry
  enter_concurrency : ℕ → Entry
  enter_health : Text → Entry
  enter_timeout : ℕ → Entry
  enter_env : Text → Entry

unfoldable pub enter : Entry → DeploySpec → DeploySpec
enter (pick_version v) s = record s { version = v.version }
enter (pick_strategy g) s = record s { strategy = g }
enter (enter_region t) s = record s { region = t }
enter (enter_cpu t) s = record s { cpu = t }
enter (enter_memory t) s = record s { memory = t }
enter (enter_concurrency n) s = record s { max_concurrency = max 1 n }
enter (enter_health t) s = record s { health_check_path = t }
enter (enter_timeout n) s = record s { timeout_ms = max 100 n }
enter (enter_env t) s = record s { env_text = t }

unfoldable pub enter_all : List Entry → DeploySpec → DeploySpec
unfolding enter
enter_all [] s = s
enter_all (x ∷ xs) s = enter_all xs (enter x s)

-- `typeof val === 'string' ? val : JSON.stringify(val)`
abbrev pub env_value : (print : Json → Text) → Json → Text
env_value print (str s) = s
env_value print v = print v

abbrev pub env_fields : (print : Json → Text) → Fields → Fields
env_fields print end = end
env_fields print (field k v fs) = field k (str (env_value print v)) (env_fields print fs)

-- The environment as a JSON object of texts, or what was thrown.
unfoldable pub parse_env_object :
    (parse : Text → Text ⊎ Json) → (print : Json → Text) → Text → Thrown ⊎ Fields
parse_env_object parse print text = if is_empty (trim text) then inr end else elim (parse text) [
  | inl message ↦ inl (Problem.error message)
  | inr v ↦ elim v [
    | obj fields ↦ inr (env_fields print fields)
    | _ ↦ inl (Problem.error (codes "env must be a JSON object"))
  ]
]

unfoldable pub deploy_vars : (digits : ℕ → Text) → Fields → DeploySpec → Json
deploy_vars digits env s = obj (
    field (codes "version") (str s.version) (
      field (codes "region") (str s.region) (
        field (codes "strategy") (str (strategy_text s.strategy)) (
          field (codes "resources")
            (obj (
              field (codes "cpu") (str s.cpu) (
                field (codes "memory") (str s.memory)
                  (field (codes "max_concurrency") (num (digits s.max_concurrency)) end))))
            (field (codes "env") (obj env) (
              field (codes "health_check_path") (str s.health_check_path)
                (field (codes "timeout_ms") (num (digits s.timeout_ms)) end)))))))

-- What a handler has done: the requests it made, the tab after it, and the effects.
pub record Done : Type 0 where
  pub requests : List ApiRequest
  pub tab : Tab
  pub effects : List Effect

-- The answer is the id of the deployment, or what was thrown.
module _ (parse : Text → Text ⊎ Json) (print : Json → Text) (digits : ℕ → Text)
    (pid fid : Text) where
  unfoldable pub on_deploy : (answer : Thrown ⊎ Text) → Tab → Done
  unfolding parse_env_object deploy_vars deploy deployed
  on_deploy answer tab = elim (parse_env_object parse print tab.spec.env_text) [
    | inl err ↦ record { requests = []; tab = record tab { error = some err }; effects = [] }
    | inr env ↦
        let sent = deploy pid fid (deploy_vars digits env tab.spec) ∷ [] in
        elim answer [
          | inl err ↦ record {
            requests = sent;
            tab = record tab { error = some err };
            effects = [];
          }
          | inr did ↦ record {
            requests = sent;
            tab = record tab { error = none; active_id = some did };
            effects = deployed pid fid;
          }
        ]
  ]

unfoldable pub on_rollback : (pid fid : Text) → (answer : Thrown ⊎ Text) → Tab → Done
unfolding rollback rolled_back
on_rollback pid fid (inl err) tab = record {
  requests = rollback pid fid ∷ [];
  tab = record tab { error = some err };
  effects = [];
}
on_rollback pid fid (inr did) tab = record {
  requests = rollback pid fid ∷ [];
  tab = record tab { error = none; active_id = some did };
  effects = rolled_back pid fid;
}

unfoldable pub deploy_disabled : (is_pending : Bool) → Tab → Bool
deploy_disabled is_pending tab = is_pending || is_empty tab.spec.version
