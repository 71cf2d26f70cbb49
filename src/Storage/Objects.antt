-- ===== src/Storage/Objects.antt =====
-- web/src/features/storage/StorageBrowserPage.tsx, `ObjectsCard`: how the download and the removal of
-- an object proceed. The bodies of responses are parsed by the platform.
pub mod Laws
use nanas.Prelude.{
  map, take, drop, ℕ, ◌==◌, Bool, true, false, not, ◌&&◌, ◌||◌, List, [], ◌∷◌, ◌++◌, Option, none,
  some, if◌then◌else◌, ◌⊎◌, ◌/◌, ◌%◌, inl, inr, or_else, or_option, is_some,
}
use nanas.Prelude.Text.{Text, codes, is_empty, starts_with, is_word}
use nanas.Prelude.Json.{Json}
use nanas.Http.{truthy, Response, is_ok}
use nanas.Web.Problem.{Thrown, problem, error, ProblemBody, problem_error, is_problem}
use nanas.Sdk.PublicFn.{hex_digit}

pub record StoredObject : Type 0 where
  pub key : Text
  pub size : ℕ
  pub etag : Text
  pub content_type : Option Text
  pub last_modified : Option Text

-- The query's key, and the parameters of the request.
unfoldable pub objects_key : (pid applied_prefix : Text) → List Text
objects_key pid applied_prefix = codes "storage" ∷ pid ∷ applied_prefix ∷ []

-- What the answer to the listing gives.
unfoldable pub objects_of : Thrown ⊎ Option (List StoredObject) → Thrown ⊎ List StoredObject
objects_of (inl e) = inl e
objects_of (inr none) = inr []
objects_of (inr (some objects)) = inr objects

-- `encodeURI` on one unit, for ASCII; `encodeURIComponent` escapes the second line too.
unfoldable pub encode_uri_unit : ℕ → Text
encode_uri_unit c =
    if is_word c
      || (c == b'-')
      || (c == b'.')
      || (c == b'!')
      || (c == b'~')
      || (c == b'*')
      || (c == 39)
      || (c == b'(')
      || (c == b')')
      || (c == b';')
      || (c == b'/')
      || (c == b'?')
      || (c == b':')
      || (c == b'@')
      || (c == b'&')
      || (c == b'=')
      || (c == b'+')
      || (c == b'$')
      || (c == b',')
      || (c == b'#')
    then c ∷ []
    else b'%' ∷ hex_digit (c / 16) ∷ hex_digit (c % 16) ∷ []

unfoldable pub encode_uri : Text → Text
unfolding encode_uri_unit
encode_uri [] = []
encode_uri (c ∷ s) = encode_uri_unit c ++ encode_uri s

unfoldable pub remove_path : (pid key : Text) → Text
unfolding encode_uri
remove_path pid key =
    codes "/v1/projects/" ++ (pid ++ (codes "/storage/objects/" ++ encode_uri key))

unfoldable pub has_slash : Text → Bool
has_slash [] = false
has_slash (d ∷ t) = (d == b'/') || has_slash t

-- The last part of a key, `key.split('/').pop()`.
unfoldable pub file_name : Text → Text
unfolding has_slash
file_name [] = []
file_name (c ∷ s) =
    let rest = file_name s in if has_slash s then rest else if c == b'/' then s else c ∷ s

pub data Download : Type 0 where
  redirect : Text → Download
  blob : (content filename : Text) → Download

-- The address that the presign response gives.
unfoldable pub download_address : (download_url url : Option Text) → Text
download_address download_url url = or_else (or_option download_url url) []

module _ (parse : Text → Option Json) (as_body : Json → ProblemBody) (language : Text) where
  -- The error for a response that is not ok, where the text of its body is parsed.
  unfoldable pub response_error : Text → Response → Thrown
  response_error message res =
      let body = if is_empty res.text then Json.null else or_else (parse res.text) Json.null in
      if is_problem body
      then problem (problem_error language res.status (as_body body))
      else error message

  -- The answer to a presign request, and the response to the fetch of its address.
  unfoldable pub presign_download :
      (fetched : Text → Response)
      → (key : Text) → Thrown ⊎ (Option Text × Option Text)
      → Thrown ⊎ Download
  unfolding response_error
  presign_download fetched key (inl e) = inl e
  presign_download fetched key (inr (download_url, url)) =
      let dl = download_address download_url url in
      if is_empty dl
      then inl (error (codes "No download path"))
      else if starts_with dl (codes "http://") || starts_with dl (codes "https://")
      then inr (redirect dl)
      else let res = fetched dl in
        if is_ok res
        then inr (blob res.text (file_name key))
        else inl (response_error (codes "Download failed") res)

  -- The response to the removal; `res.json()` fails on an empty body as on one that is no JSON.
  unfoldable pub removed : Response → Thrown ⊎ Json
  unfolding response_error
  removed res =
      if is_ok res
      then inr (or_else (parse res.text) Json.null)
      else inl (response_error (codes "Failed") res)

-- The prefix in the input, and the one that the listing was asked for.
pub record Card : Type 0 where
  pub prefix : Text
  pub applied_prefix : Text

unfoldable pub set_prefix : Text → Card → Card
set_prefix input s = record s { prefix = input }

unfoldable pub apply_prefix : (is_loading : Bool) → Card → Card
apply_prefix is_loading s = if is_loading then s else record s { applied_prefix = s.prefix }

-- The cells of a row; the format of a size and of a date are arguments.
pub record ObjectCells : Type 0 where
  pub key : Text
  pub size : Text
  pub etag : Text
  pub last_modified : Text

unfoldable pub object_row :
    (format_bytes : ℕ → Text) (format : Text → Text) (dash : Text) → StoredObject → ObjectCells
object_row format_bytes format dash object = record {
  key = object.key;
  size = format_bytes object.size;
  etag = take 8 (drop 1 object.etag);
  last_modified =
      if truthy object.last_modified then format (or_else object.last_modified []) else dash;
}

pub data ObjectsView : Type 0 where
  loading : ObjectsView
  empty : Text → ObjectsView
  table : List ObjectCells → ObjectsView

unfoldable pub objects_view :
    (format_bytes : ℕ → Text) (format : Text → Text) (dash : Text)
    → (is_loading : Bool) → Card
    → List StoredObject
    → ObjectsView
unfolding object_row
objects_view format_bytes format dash is_loading s objects =
    if is_loading then loading else elim objects [
      | [] ↦ empty (
          if is_empty s.applied_prefix
          then codes "Upload one above."
          else codes "No keys starting with " ++ (s.applied_prefix ++ codes "."))
      | o ∷ os ↦ table (map (object_row format_bytes format dash) (o ∷ os))
    ]
