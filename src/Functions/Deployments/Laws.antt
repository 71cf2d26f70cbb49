-- ===== src/Functions/Deployments/Laws.antt =====
-- The deployments tab: the range of what is sent, that only complete builds are deployed, and how
-- long a deployment is watched.
use nanas.Prelude.{
  ℕ, ◌≤◌, ◌≡◌, refl, ap, Bool, true, false, List, [], ◌∷◌, Option, some, arith, ◌⊎◌, inl, inr,
  Bool-cases, Listed, All, if◌then◌else◌, or_else,
}
use nanas.Prelude.Sort.{Listed-keep}
use nanas.Prelude.Text.{Text, is_empty, trim}
use nanas.Prelude.Json.{Json, Fields, obj, field, end, str}
use nanas.Queries.Functions.{deployment_by_id}
use nanas.Functions.Deployments.{
  DeploySpec, default_spec, VersionRow, Tab, active_query, is_complete, complete_versions, Entry,
  pick_version, pick_strategy, enter_region, enter_cpu, enter_memory, enter_concurrency,
  enter_health, enter_timeout, enter_env, enter, enter_all, env_fields, parse_env_object, on_deploy,
  on_rollback, deploy_disabled,
}

-- An entry is one that the form offers.
abbrev pub IsOffered : Option (List VersionRow) → Entry → Type 0
IsOffered versions (pick_version v) = Listed v (complete_versions versions)
IsOffered versions x = Unit

-- The numbers are in their range, and the version is not chosen yet or that of a complete build.
abbrev pub IsReady : Option (List VersionRow) → DeploySpec → Type 0
IsReady versions s =
    (1 ≤ s.max_concurrency)
    × (100 ≤ s.timeout_ms)
    × ((s.version ≡ [])
        ⊎ ((v : VersionRow) × Listed v (or_else versions [])
            × (is_complete v ≡ true)
            × (s.version ≡ v.version)))

enter-IsReady :
    (versions : Option (List VersionRow)) (x : Entry) (s : DeploySpec)
    → IsOffered versions x
    → IsReady versions s
    → IsReady versions (enter x s)
unfolding enter complete_versions
enter-IsReady versions (pick_version v) s offered ready =
    let (there, complete) = (Listed-keep is_complete v (or_else versions [])).0 offered in
    (ready.0, ready.1, inr (v, there, complete, refl))
enter-IsReady versions (pick_strategy g) s offered ready = ready
enter-IsReady versions (enter_region t) s offered ready = ready
enter-IsReady versions (enter_cpu t) s offered ready = ready
enter-IsReady versions (enter_memory t) s offered ready = ready
enter-IsReady versions (enter_concurrency n) s offered ready = (omega arith, ready.1, ready.2)
enter-IsReady versions (enter_health t) s offered ready = ready
enter-IsReady versions (enter_timeout n) s offered ready = (ready.0, omega arith, ready.2)
enter-IsReady versions (enter_env t) s offered ready = ready

enter_all-keeps :
    (versions : Option (List VersionRow)) (xs : List Entry) (s : DeploySpec)
    → All (IsOffered versions) xs
    → IsReady versions s
    → IsReady versions (enter_all xs s)
unfolding enter_all
enter_all-keeps versions [] s offered ready = ready
enter_all-keeps versions (x ∷ xs) s offered ready =
    enter_all-keeps versions xs (enter x s) offered.1 (enter-IsReady versions x s offered.0 ready)

-- Whatever is entered in the form: the concurrency is at least 1 and the timeout at least 100, and
-- where the button deploys, the version is that of a complete build.
pub enter_all-IsReady :
    (versions : Option (List VersionRow)) (xs : List Entry) (tab : Tab) (pending : Bool)
    → All (IsOffered versions) xs
    → tab.spec ≡ enter_all xs default_spec
    → deploy_disabled pending tab ≡ false
    → (1 ≤ tab.spec.max_concurrency)
      × (100 ≤ tab.spec.timeout_ms)
      × ((v : VersionRow) × Listed v (or_else versions [])
          × (is_complete v ≡ true)
          × (tab.spec.version ≡ v.version))
unfolding default_spec deploy_disabled
enter_all-IsReady versions xs tab pending offered made enabled =
    let ready : IsReady versions tab.spec =
      rw made
        (enter_all-keeps versions xs default_spec offered (omega arith, omega arith, inl refl)) in
    elim (ready.2) [
      | inr chosen ↦ (ready.0, ready.1, chosen)
      | inl none_yet ↦
          let off : deploy_disabled pending tab ≡ true = ground (arith, none_yet) in
          absurd (cc (off, enabled))
    ]

-- The environment of texts is sent as it was written.
abbrev pub text_fields : List (Text × Text) → Fields
text_fields [] = end
text_fields (kv ∷ kvs) = field kv.0 (str kv.1) (text_fields kvs)

env_fields-text_fields :
    (print : Json → Text) (kvs : List (Text × Text))
    → env_fields print (text_fields kvs) ≡ text_fields kvs
env_fields-text_fields print [] = refl
env_fields-text_fields print (kv ∷ kvs) =
    ap (field kv.0 (str kv.1)) (env_fields-text_fields print kvs)

-- Where the text of the environment is an object of texts, the environment that is sent is that
-- object; a blank text gives an empty one.
pub parse_env_object-text_fields :
    (parse : Text → Text ⊎ Json) (print : Json → Text) (text : Text) (kvs : List (Text × Text))
    → parse text ≡ inr (obj (text_fields kvs))
    → parse_env_object parse print text
      ≡ inr (if is_empty (trim text) then end else text_fields kvs)
unfolding parse_env_object
parse_env_object-text_fields parse print text kvs reads = elim (Bool-cases (is_empty (trim text))) [
  | inl blank ↦ rw blank refl
  | inr full ↦ rw (full, reads) (ap inr (env_fields-text_fields print kvs))
]

-- A deployment that was started or rolled back to is asked for every 1.5 s, whatever its status is:
-- also once it is active, failed, superseded or rolled back.
pub active_query_lem :
    (parse : Text → Text ⊎ Json) (print : Json → Text) (digits : ℕ → Text) (pid fid did : Text)
    (tab : Tab) (env : Fields) (d : Option Json)
    → is_empty did ≡ false
    → parse_env_object parse print tab.spec.env_text ≡ inr env
    → ((active_query (on_deploy parse print digits pid fid (inr did) tab).tab).enabled ≡ true)
      × ((active_query (on_deploy parse print digits pid fid (inr did) tab).tab).refetch_interval d
          ≡ some 1500)
      × ((active_query (on_rollback pid fid (inr did) tab).tab).enabled ≡ true)
      × ((active_query (on_rollback pid fid (inr did) tab).tab).refetch_interval d ≡ some 1500)
unfolding active_query on_deploy on_rollback deployment_by_id
active_query_lem parse print digits pid fid did tab env d full good =
    (rw (good, on_deploy, full) refl, rw (good, on_deploy, full) refl, rw full refl, rw full refl)
