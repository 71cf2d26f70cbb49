-- ===== src/Projects/ApiKeys.antt =====
-- web/src/features/projects/ProjectApiKeysTab.tsx: the list of keys, and making, revoking and
-- limiting a key. `number` is what JSON.stringify makes of `Number` of a text of digits; the
-- formatting of dates is a parameter of the row.
pub mod Laws
use nanas.Prelude.{
  Bool, not, ◌||◌, List, [], ◌∷◌, ◌++◌, keep, Option, none, some, if◌then◌else◌, or_else, and_then,
  ◌⊎◌, inl, inr,
}
use nanas.Prelude.Text.{Text, codes, is_digit, is_empty}
use nanas.Prelude.Json
use nanas.Prelude.Json.{Json, Items, items, arr, obj, field, end, str, property}
use nanas.Http.{Response, truthy}
use nanas.Web.Session.{not_null}
use nanas.Web.Problem.{ProblemBody, Thrown, error}
use nanas.Queries.{word, Key, ApiRequest, Effect, invalidate}
use nanas.Queries.Functions.{pid_param}
use nanas.Queries.Raw.{settle, RawRequest, of_project, json_headers}

pub data Role : Type 0 where
  viewer developer admin : Role

abbrev pub role_text : Role → Text
role_text viewer = codes "viewer"
role_text developer = codes "developer"
role_text admin = codes "admin"

unfoldable pub keys_key : (pid : Text) → Key
keys_key pid = word (codes "projects") ∷ word pid ∷ word (codes "keys") ∷ []

-- What is thrown where a property of null is read.
abbrev pub type_error : Thrown
type_error = error (codes "TypeError")

-- The query of the list. A success without a JSON body is read at a property of null.
unfoldable pub list_keys :
    (parse : Text → Option Json)
    → (as_body : Json → ProblemBody) → (language : Text) → Response
    → Thrown ⊎ Json
unfolding settle not_null
list_keys parse as_body language res = elim (settle parse as_body language (codes "Failed") res) [
  | inl err ↦ inl err
  | inr Json.null ↦ inl type_error
  | inr body ↦ inr (or_else (not_null (property (codes "keys") body)) (arr Json.nil))
]

unfoldable pub mint_request : (pid name : Text) → Role → RawRequest
unfolding of_project
mint_request pid name role = record {
  input = of_project pid (codes "/keys");
  method = codes "POST";
  headers = json_headers;
  body =
      some
        (obj (field (codes "name") (str name) (field (codes "role") (str (role_text role)) end)));
}

unfoldable pub revoke_request : (pid kid : Text) → RawRequest
unfolding of_project
revoke_request pid kid = record {
  input = of_project pid (codes "/keys/" ++ (kid ++ codes "/revoke"));
  method = codes "POST";
  headers = [];
  body = none;
}

unfoldable pub quota_request : (pid kid : Text) → (rpm : Json) → ApiRequest
quota_request pid kid rpm = record {
  method = codes "PATCH";
  path = codes "/v1/projects/{pid}/keys/{kid}/quota";
  params = pid_param pid ∷ (codes "kid", kid) ∷ [];
  query = [];
  body = some (obj (field (codes "rpm") rpm end));
}

-- The effect of each of the three mutations.
unfoldable pub keys_changed : (pid : Text) → List Effect
unfolding keys_key
keys_changed pid = invalidate (keys_key pid) ∷ []

pub record PlainKey : Type 0 where
  pub id : Option Json
  pub key : Option Json

pub record Tab : Type 0 where
  pub name : Text
  pub role : Role
  pub plain_key : Option PlainKey
  pub error : Option Thrown

unfoldable pub fresh : Tab
fresh = record { name = []; role = developer; plain_key = none; error = none }

-- The answer to a request for a key. Where the body is null, the handler of the success throws, and
-- that of the failure is called.
unfoldable pub minted : (answer : Thrown ⊎ Json) → Tab → Tab
minted (inl err) tab = record tab { error = some err }
minted (inr Json.null) tab = record tab { error = some type_error }
minted (inr body) tab = record tab {
  plain_key = some (record { id = property (codes "id") body; key = property (codes "key") body });
  name = [];
  error = none;
}

-- What happens in the tab. Revoking and limiting change none of its cells.
pub data Event : Type 0 where
  set_name : Text → Event
  set_role : Role → Event
  dismiss : Event
  mint_settled : (answer : Thrown ⊎ Json) → Event
  revoke_settled : (answer : Thrown ⊎ Json) → Event
  quota_settled : (answer : Thrown ⊎ Json) → Event

unfoldable pub react : Event → Tab → Tab
unfolding minted
react (set_name value) tab = record tab { name = value }
react (set_role value) tab = record tab { role = value }
react dismiss tab = record tab { plain_key = none }
react (mint_settled answer) tab = minted answer tab
react (revoke_settled answer) tab = tab
react (quota_settled answer) tab = tab

unfoldable pub react_all : List Event → Tab → Tab
unfolding react
react_all [] tab = tab
react_all (e ∷ es) tab = react_all es (react e tab)

-- A row of the list, and the cell of its quota.
pub record ApiKeyRow : Type 0 where
  pub id : Text
  pub role : Text
  pub name : Text
  pub quota_rpm : Option Text
  pub revoked : Option Text
  pub created_at : Text

unfoldable pub first_quota : ApiKeyRow → Text
first_quota row = or_else row.quota_rpm []

-- `value.replace(/\D/g, '')`
unfoldable pub enter_quota : Text → Text
unfolding is_digit
enter_quota value = keep is_digit value

unfoldable pub quota_of : (number : Text → Json) → (quota : Text) → Json
quota_of number quota = if is_empty quota then Json.null else number quota

pub record KeyCells : Type 0 where
  pub name : Text
  pub role : Text
  pub input_disabled : Bool
  pub quota_disabled : Bool
  pub revoke_disabled : Bool
  pub is_revoked : Bool
  pub created : Text

unfoldable pub key_row : (format : Text → Text) → (busy : Bool) → ApiKeyRow → KeyCells
key_row format busy row = record {
  name = if is_empty row.name then codes "—" else row.name;
  role = row.role;
  input_disabled = truthy row.revoked;
  quota_disabled = busy || truthy row.revoked;
  revoke_disabled = truthy row.revoked || busy;
  is_revoked = truthy row.revoked;
  created = if is_empty row.created_at then codes "—" else format row.created_at;
}
