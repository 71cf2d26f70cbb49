-- ===== src/Triggers.antt =====
-- web/src/features/triggers/TriggersListPage.tsx: the list of a project's triggers, the dialog that
-- creates one, and the rows. JSON.parse, with the message where it throws, the format of a date, and
-- the fields that `...` takes from a value that is no object are parameters.
pub mod Laws
use nanas.Prelude.{
  ℕ, ◌==◌, Bool, true, false, not, ◌&&◌, ◌||◌, List, [], ◌∷◌, ◌++◌, map, keep, take, length, Option,
  none, some, if◌then◌else◌, leb, or_else, is_some, ◌⊎◌, inl, inr,
}
use mathlib.Core.Option
use nanas.Prelude.Text.{Text, codes, text_eq, is_empty, trim}
use nanas.Prelude.Json.{Json, Fields, Items, null, bool, num, str, arr, obj, nil, cons, field, end}
use nanas.Http.{truthy}
use nanas.Web.Problem
use nanas.Web.Problem.{Thrown}
use nanas.Dsl.Builder.{DslConfig, Reduce}
use nanas.Queries.{ApiRequest, Effect, invalidate}
use nanas.Queries.Functions.{post, pid_param}
use nanas.Queries.Triggers.{all_key}

pub data TriggerType : Type 0 where
  http : TriggerType
  cron : TriggerType
  db_poll : TriggerType
  object : TriggerType

abbrev pub type_text : TriggerType → Text
type_text http = codes "http"
type_text cron = codes "cron"
type_text db_poll = codes "db_poll"
type_text object = codes "object"

unfoldable pub samples : TriggerType → Text
samples http = codes "{ \"secret\": \"hunter2\" }"
samples cron = codes "{ \"every_seconds\": 60 }"
samples db_poll = codes "{ \"poll_seconds\": 120 }"
samples object = codes "{ \"bucket\": \"events\" }"

pub record TriggerListItem : Type 0 where
  pub id : Text
  pub type : Text
  pub target_fn : Text
  pub target_fn_name : Option Text
  pub enabled : Bool
  pub last_fired_at : Option Text
  pub dispatch_count : ℕ
  pub dlq_count : ℕ

-- A filter of `none` is 'all'.
unfoldable pub matches : (type fn : Option Text) → TriggerListItem → Bool
matches type fn it =
    elim type [ none ↦ true | some t ↦ text_eq it.type t ]
    && elim fn [ none ↦ true | some f ↦ text_eq it.target_fn f ]

unfoldable pub filtered :
    (type fn : Option Text) → Option (List TriggerListItem) → List TriggerListItem
unfolding matches
filtered type fn items = keep (matches type fn) (or_else items [])

pub record Page : Type 0 where
  pub open_dialog : Bool
  pub type : TriggerType
  pub target : Text
  pub config : Text
  pub transform : DslConfig
  pub error : Option Thrown

abbrev pub no_transform : DslConfig
no_transform = record { map_fields = none; filter = none; reduce = none }

unfoldable pub fresh : Page
unfolding samples
fresh = record {
  open_dialog = false;
  type = http;
  target = [];
  config = samples http;
  transform = no_transform;
  error = none;
}

-- The select of the type sets the sample of its configuration too.
unfoldable pub select_type : TriggerType → Page → Page
unfolding samples
select_type t p = record p { type = t; config = samples t }

unfoldable pub set_open : Bool → Page → Page
set_open b p = record p { open_dialog = b }

unfoldable pub set_target : Text → Page → Page
set_target t p = record p { target = t }

unfoldable pub set_config : Text → Page → Page
set_config t p = record p { config = t }

unfoldable pub set_transform : DslConfig → Page → Page
set_transform c p = record p { transform = c }

abbrev pub texts_json : List Text → Items
texts_json [] = nil
texts_json (s ∷ ss) = cons (str s) (texts_json ss)

abbrev pub reduce_json : Reduce → Json
reduce_json r = obj (
    field (codes "op") (str r.op)
      (elim r.field [ none ↦ end | some f ↦ field (codes "field") (str f) end ]))

-- `name` where there is a value for it.
abbrev pub field_some : Text → Option Json → Fields → Fields
field_some name none rest = rest
field_some name (some v) rest = field name v rest

-- The fields of the transform that are there.
unfoldable pub transform_json : DslConfig → Json
transform_json c = obj (
    field_some (codes "map") (Option.map (λ m. arr (texts_json m)) c.map_fields) (
      field_some (codes "filter") (Option.map str c.filter)
        (field_some (codes "reduce") (Option.map reduce_json c.reduce) end)))

unfoldable pub has_transform : DslConfig → Bool
has_transform c = is_some c.map_fields || truthy c.filter || is_some c.reduce

-- `{ ...fields, [name]: value }`
unfoldable pub set_field : Text → Json → Fields → Fields
set_field name value end = field name value end
set_field name value (field k v fs) =
    if text_eq k name then field k value fs else field k v (set_field name value fs)

abbrev pub payload_transform : Text
payload_transform = codes "payload_transform"

module _ (parse : Text → Text ⊎ Json) (indexed : Json → Fields) where
  abbrev pub own_fields : Json → Fields
  own_fields (obj fs) = fs
  own_fields v = indexed v

  -- The configuration that is sent, or the message of the parser.
  unfoldable pub config_of : Page → Text ⊎ Json
  unfolding has_transform set_field transform_json
  config_of p = elim (if is_empty (trim p.config) then inr (obj end) else parse p.config) [
    | inl message ↦ inl message
    | inr cfg ↦ inr (
        if has_transform p.transform
        then obj (set_field payload_transform (transform_json p.transform) (own_fields cfg))
        else cfg)
  ]

  -- The requests of a creation, the page after it and its effects; the answer is what was thrown,
  -- or nothing.
  unfoldable pub create :
      (pid : Text) → (answer : Thrown ⊎ Json) → Page → List ApiRequest × Page × List Effect
  unfolding config_of all_key
  create pid answer p = elim (config_of p) [
    | inl message ↦ ([], record p { error = some (Problem.error message) }, [])
    | inr cfg ↦
        let sent =
          post (codes "/v1/projects/{pid}/triggers") (pid_param pid ∷ []) (
            some (
              obj (
                field (codes "type") (str (type_text p.type))
                  (field (codes "target_fn") (str p.target) (field (codes "config") cfg end)))))
          ∷ [] in
        elim answer [
          | inl e ↦ (sent, record p { error = some e }, [])
          | inr done ↦ (
            sent,
            record p { open_dialog = false; target = []; transform = no_transform; error = none },
            invalidate (all_key pid) ∷ [],
          )
        ]
  ]

unfoldable pub create_disabled : (is_pending : Bool) → Page → Bool
create_disabled is_pending p = is_pending || is_empty (trim p.target)

-- The name of the target and the last time it was fired, and whether the number of dead letters is
-- marked.
unfoldable pub trigger_row : (format : Text → Text) → TriggerListItem → Text × Text × Bool
trigger_row format it = (
  elim it.target_fn_name [ none ↦ take 8 it.target_fn | some name ↦ name ],
  if truthy it.last_fired_at then format (or_else it.last_fired_at []) else codes "—",
  leb 1 it.dlq_count,
)
