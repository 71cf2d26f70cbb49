-- ===== src/Storage/Upload.antt =====
-- web/src/features/storage/StorageBrowserPage.tsx, `UploadCard`: its state, its handlers, the events of
-- the `XMLHttpRequest`, and which buttons are disabled. A rate is a whole number of percent; the
-- rounding of the quotient before it is rounded to that is left out.
pub mod Laws
use nanas.Prelude.{
  ℕ, zero, suc, ◌+◌, ◌*◌, ◌/◌, ◌==◌, Bool, true, false, not, ◌&&◌, ◌||◌, List, [], ◌∷◌, ◌++◌,
  Option, none, some, if◌then◌else◌, ◌⊎◌, inl, inr, or_else, is_some, leb, ltb,
}
use nanas.Prelude.Text.{Text, codes, is_empty, trim}
use nanas.Http.{truthy}
use nanas.Web.Problem.{Thrown, error}
use nanas.Web.Session.{SessionState}
use nanas.Web.Client.{resolve_api_http_url, xhr_api_headers}
use nanas.Storage.ObjectKey.{validate_object_key}

pub record PresignResponse : Type 0 where
  pub upload_url : Option Text
  pub download_url : Option Text
  pub plain_url : Option Text
  pub method : Option Text
  pub bucket : Option Text

pub record File : Type 0 where
  pub name : Text
  pub size : ℕ
  pub content_type : Text

-- A quotient by zero is no number.
pub data Progress : Type 0 where
  percent : ℕ → Progress
  not_a_number : Progress

-- The `useState` cells. The number `expires` is kept by its literal.
pub record Upload : Type 0 where
  pub key : Text
  pub expires : Text
  pub file : Option File
  pub progress : Option Progress
  pub failure : Option Thrown
  pub presigned : Option PresignResponse
  pub drag_over : Bool

abbrev pub fresh_upload : Upload
fresh_upload = record {
  key = [];
  expires = codes "3600";
  file = none;
  progress = none;
  failure = none;
  presigned = none;
  drag_over = false;
}

unfoldable pub key_error : Upload → Option Text
key_error s = if is_empty s.key then none else validate_object_key s.key

unfoldable pub set_key : Text → Upload → Upload
set_key input s = record s { key = input }

unfoldable pub set_expires : Text → Upload → Upload
set_expires input s = record s { expires = if is_empty input then codes "3600" else input }

abbrev pub named_after : File → Upload → Upload
named_after f s = if is_empty s.key then record s { key = f.name } else s

unfoldable pub on_drop : List File → Upload → Upload
on_drop [] s = record s { drag_over = false }
on_drop (f ∷ fs) s = named_after f (record s { drag_over = false; file = some f })

unfoldable pub on_pick : List File → Upload → Upload
on_pick [] s = record s { file = none }
on_pick (f ∷ fs) s = named_after f (record s { file = some f })

-- The body of the presign request, and its `onSuccess` and `onError`.
unfoldable pub presign_body : Upload → Text × Text
presign_body s = (s.key, s.expires)

unfoldable pub presign_settled : Thrown ⊎ PresignResponse → Upload → Upload
presign_settled (inl e) s = record s { failure = some e }
presign_settled (inr d) s = record s { presigned = some d; failure = none }

pub record XhrRequest : Type 0 where
  pub method : Text
  pub url : Text
  pub headers : List (Text × Text)
  pub body : File

-- `presigned?.upload_url`
abbrev pub upload_url : Upload → Option Text
upload_url s = elim s.presigned [ none ↦ none | some d ↦ d.upload_url ]

abbrev or_text : Option Text → Text → Text
or_text none y = y
or_text (some x) y = if is_empty x then y else x

-- The request that `upload` sends.
unfoldable pub upload_request :
    (base_url : Text) (window : Option Text) (language : Text)
    → SessionState
    → Upload
    → Option XhrRequest
upload_request base_url window language session s = elim s.file [
  | none ↦ none
  | some f ↦ elim s.presigned [
    | none ↦ none
    | some d ↦
        if truthy d.upload_url
        then some (record {
          method = or_text d.method (codes "PUT");
          url = resolve_api_http_url base_url window (or_else d.upload_url []);
          headers =
              xhr_api_headers language session
              ++ ((
                codes "Content-Type",
                if is_empty f.content_type
                    then codes "application/octet-stream"
                    else f.content_type,
              )
                  ∷ []);
          body = f;
        })
        else none
  ]
]

unfoldable pub start_upload : Upload → Upload
start_upload s =
    if is_some s.file && truthy (upload_url s) then record s { progress = some (percent 0) } else s

-- `Math.round((e.loaded / e.total) * 100)`
unfoldable pub rate : (loaded total : ℕ) → Progress
rate loaded zero = not_a_number
rate loaded (suc n) = percent ((200 * loaded + suc n) / (2 * suc n))

unfoldable pub on_progress : (computable : Bool) → (loaded total : ℕ) → Upload → Upload
unfolding rate
on_progress computable loaded total s =
    if computable then record s { progress = some (rate loaded total) } else s

pub data Effect : Type 0 where
  toast_success : Effect
  toast_error : Effect
  invalidate : List Text → Effect

-- The request's end: its status and the message of the error for it, or no answer.
pub data XhrEnd : Type 0 where
  loaded : ℕ → Text → XhrEnd
  no_answer : XhrEnd

unfoldable pub failed : Text → Upload → Upload × List Effect
failed message s = (record s { failure = some (error message); progress = none }, toast_error ∷ [])

unfoldable pub on_end : (pid : Text) → XhrEnd → Upload → Upload × List Effect
unfolding failed
on_end pid (loaded status message) s =
    if leb 200 status && ltb status 300
    then (
      record s { progress = none },
      toast_success ∷ invalidate (codes "storage" ∷ pid ∷ []) ∷ [],
    )
    else failed message s
on_end pid no_answer s = failed (codes "Network error") s

unfoldable pub presign_disabled : (pending : Bool) → Upload → Bool
unfolding key_error
presign_disabled pending s = pending || is_empty (trim s.key) || is_some (key_error s)

unfoldable pub upload_disabled : Upload → Bool
upload_disabled s = not (truthy (upload_url s)) || not (is_some s.file) || is_some s.progress

-- What the user, the presign request and the upload do to the card.
pub data Event : Type 0 where
  key_input : Text → Event
  expires_input : Text → Event
  dropped : List File → Event
  picked : List File → Event
  presign_end : Thrown ⊎ PresignResponse → Event
  upload_click : Event
  progressed : Bool → ℕ → ℕ → Event
  ended : XhrEnd → Event

unfoldable pub react : (pid : Text) → Event → Upload → Upload
unfolding set_key set_expires on_drop on_pick presign_settled start_upload on_progress on_end
react pid (key_input input) s = set_key input s
react pid (expires_input input) s = set_expires input s
react pid (dropped files) s = on_drop files s
react pid (picked files) s = on_pick files s
react pid (presign_end r) s = presign_settled r s
react pid upload_click s = start_upload s
react pid (progressed computable n total) s = on_progress computable n total s
react pid (ended e) s = (on_end pid e s).0

unfoldable pub react_all : (pid : Text) → List Event → Upload → Upload
unfolding react
react_all pid [] s = s
react_all pid (e ∷ es) s = react_all pid es (react pid e s)
