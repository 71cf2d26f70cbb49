-- ===== src/Storage/ObjectKey.antt =====
-- web/src/lib/objectKey.ts: the check of an object's key.
pub mod Laws
use nanas.Prelude.{
  ℕ, Bool, true, false, ◌&&◌, ◌||◌, List, [], ◌∷◌, Option, none, some, if◌then◌else◌, ◌==◌, leb,
  ltb, length, drop,
}
use nanas.Prelude.Text.{Text, codes, is_empty, starts_with}

-- `(\/|$)`
unfoldable pub ends_segment : Text → Bool
ends_segment [] = true
ends_segment (c ∷ s) = c == b'/'

-- `(^|\/)\.\.(\/|$)` at some place of the text; `boundary` is true at its start and behind a slash.
unfoldable pub has_dots : (boundary : Bool) → Text → Bool
unfolding ends_segment starts_with
has_dots boundary [] = false
has_dots boundary (c ∷ s) =
    (boundary && starts_with (c ∷ s) (codes "..") && ends_segment (drop 2 (c ∷ s)))
    || has_dots (c == b'/') s

-- `[\x00-\x1f\x7f]` somewhere
unfoldable pub has_control : Text → Bool
has_control [] = false
has_control (c ∷ s) = leb c 31 || (c == 127) || has_control s

unfoldable pub validate_object_key : Text → Option Text
unfolding has_dots has_control starts_with
validate_object_key key =
    if is_empty key
    then some (codes "Key required")
    else if ltb 1024 (length key)
    then some (codes "Key too long")
    else if starts_with key (codes "/")
    then some (codes "Key may not start with '/'")
    else if has_dots true key
    then some (codes "Key may not contain '..'")
    else if has_control key
    then some (codes "Key contains control characters")
    else none
