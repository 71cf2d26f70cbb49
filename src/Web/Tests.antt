-- ===== src/Web/Tests.antt =====
-- The console's client, session, guards and cache on concrete values.
use nanas.Prelude.{
  ◌≤◌, ◌≡◌, ◌≢◌, ◌⊎◌, ◌↔◌, refl, Bool, true, false, List, [], ◌∷◌, Option, none, some, keep, length,
  arith, if◌then◌else◌,
}
use nanas.Prelude.Text.{Text, codes, text_eq, lookup}
use nanas.Prelude.Json.{Json, str}
use nanas.Http.{truthy, Response}
use nanas.Sdk.Client.Laws.{IsSuccess}
use nanas.Web.Problem.{ProblemBody, ProblemError, problem_error, field_message}
use nanas.Web.Problem.Laws.{field_message_absent}
use nanas.Web.Session.{jwt, PlatformRole, super_admin, SessionState, clear}
use nanas.Web.Guards.{role_text, require_platform_role, children}
use nanas.Web.Guards.Laws.{rank, role_of, require_platform_role-eq-children_iff}
use nanas.Web.Client.{on_response, returned, thrown}
use nanas.Web.Client.Laws.{on_response-session}
use nanas.Web.LocalCache.{
  CachedItem, Parsed, array, not_array, Snapshot, World, storage_key, get_cached, add_cached,
  has_id,
}
use nanas.Web.LocalCache.Laws.{storage_key_injective, IsCoherent, get_cached_lem}
use nanas.Web.LocalCache.Laws.Updates.{Updates, add_cached-Updates}

abbrev session : SessionState
session = record {
  token = some (codes "t");
  mode = jwt;
  user =
      some (record {
        id = str (codes "1");
        email = str [];
        platform_role = some (str (codes "staff"));
      });
}

abbrev no_json : Text → Option Json
no_json s = none

abbrev plain_body : Json → ProblemBody
plain_body v = record {
  type = none;
  code = codes "X";
  message = none;
  message_preferred = none;
  instance_uri = none;
  errors = none;
}

abbrev expired : Response
expired = record { status = 401; status_text = []; text = [] }

on_response-session_example :
    IsSuccess expired
      × (on_response no_json plain_body (codes "en") session expired ≡ (session, returned expired))
    ⊎ (¬ IsSuccess expired)
      × ((e : ProblemError) × (e.status ≡ expired.status)
          × ((expired.status ≡ 401)
                × (truthy session.token ≡ true)
                × (on_response no_json plain_body (codes "en") session expired
                    ≡ (clear session, thrown e))
              ⊎ ((expired.status ≢ 401) ⊎ (truthy session.token ≡ false))
                × (on_response no_json plain_body (codes "en") session expired
                    ≡ (session, thrown e))))
on_response-session_example = on_response-session no_json plain_body (codes "en") session expired

require_platform_role-eq-children_iff_example :
    (require_platform_role super_admin session ≡ children) ↔ (
      (have : PlatformRole) × (role_of session ≡ some (str (role_text have)))
      × (rank super_admin ≤ rank have))
require_platform_role-eq-children_iff_example =
    require_platform_role-eq-children_iff super_admin session

abbrev id_only : ProblemBody
id_only = record {
  type = none;
  code = codes "X";
  message = some (record { id = some (codes "gagal"); en = none });
  message_preferred = none;
  instance_uri = none;
  errors = none;
}

abbrev failure : ProblemError
failure = problem_error (codes "en") 400 id_only

field_message_absent_example : field_message (codes "en") failure (codes "name") ≡ none
unfolding problem_error
field_message_absent_example = field_message_absent (codes "en") failure (codes "name") tt

storage_key_injective_example : (codes "fn" ≡ codes "fn") × (codes "p" ≡ codes "p")
storage_key_injective_example =
    storage_key_injective (codes "fn") (codes "fn") (codes "p") (codes "p") (omega arith)
      (omega arith) refl

abbrev key : Text
key = storage_key (codes "fn") (codes "p")

abbrev world : World
world = record {
  defined = true;
  readable = true;
  entries = [];
  snapshots = [];
  listeners = [];
  called = [];
}

abbrev item : CachedItem
item = record { id = codes "a"; name = none; meta = none; ts = 0 }

abbrev stamped : CachedItem
stamped = record item { ts = 9 }

abbrev reads : Text → Parsed
reads s = array (stamped ∷ [])

abbrev writes : List CachedItem → Text
writes l = codes "j"

abbrev takes : Text → Text → Bool
takes k s = true

world-IsCoherent : IsCoherent reads world
unfolding lookup
world-IsCoherent k hit e = absurd (cc)

-- Another tab wrote "j" where this one had read "k".
abbrev either : Text → Parsed
either s = if text_eq s (codes "j") then array (stamped ∷ []) else not_array

abbrev behind : World
behind = record world {
  entries = (key, codes "j") ∷ [];
  snapshots = (key, record { raw = some (codes "k"); items = [] }) ∷ [];
}

behind-IsCoherent : IsCoherent either behind
unfolding lookup text_eq
behind-IsCoherent k hit e = ground arith

get_cached_lem_example :
    ((get_cached either key behind).1 ≡ stamped ∷ [])
    × IsCoherent either (get_cached either key behind).0
    × ((w' : List (Text × Snapshot)) × ((get_cached either key behind).0
          ≡ record behind { snapshots = w' }))
unfolding lookup text_eq storage_key
get_cached_lem_example = get_cached_lem either key behind behind-IsCoherent

add_cached-Updates_example :
    Updates reads writes takes key
      (stamped ∷ [])
      world
      (add_cached reads writes takes key 9 item world)
    × (length (stamped ∷ []) ≤ 100)
    × (keep (has_id (codes "a")) (stamped ∷ []) ≡ stamped ∷ [])
unfolding lookup
add_cached-Updates_example =
    add_cached-Updates reads writes takes key 9 item world (refl, cc) world-IsCoherent refl refl
