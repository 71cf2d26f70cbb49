-- ===== src/Database/Catalog/Laws.antt =====
-- What the buttons of the catalogue send: the list without repetition, and the change of one name.
use nanas.Prelude.{
  ◌≡◌, refl, ap, Bool, true, false, not, ◌&&◌, List, [], ◌∷◌, ◌++◌, map, keep, some, none, fun_ext,
  if◌then◌else◌, arith, or_else, Bool-cases, inl, inr, ◌⊎◌, Listed, All,
}
use nanas.Prelude.Text.{Text, text_eq, text_eq_iff, to_lower}
use nanas.Prelude.Names.{
  contains, IsDistinct, contains-added, contains-keep, contains-sort_by, sort_by-IsDistinct, unique,
  contains-unique, unique-IsDistinct,
}
use nanas.Prelude.Sort.{sort_by, IsSorted, sort_by-IsSorted, All-sort_by}
use nanas.Database.Catalog.{
  drop_seen, dedupe_sorted_tables, Page, on_list, allowed_lower, row, rows, view,
}

abbrev pub lower_names : List Text → List Text
lower_names = map to_lower

-- The loop is what a set keeps of the names.
drop_seen-unique : (seen xs : List Text) → drop_seen seen xs ≡ unique to_lower seen xs
unfolding drop_seen unique
drop_seen-unique seen [] = refl
drop_seen-unique seen (x ∷ xs) =
    rw (drop_seen-unique (to_lower x ∷ seen) xs, drop_seen-unique seen xs) refl

contains-drop_seen :
    (seen xs : List Text) (k : Text)
    → contains (lower_names (drop_seen seen xs)) k
      ≡ (contains (lower_names xs) k && not (contains seen k))
contains-drop_seen seen xs k = rw (drop_seen-unique seen xs) (contains-unique to_lower seen xs k)

drop_seen-IsDistinct : (seen xs : List Text) → IsDistinct (lower_names (drop_seen seen xs))
drop_seen-IsDistinct seen xs = rw (drop_seen-unique seen xs) (unique-IsDistinct to_lower seen xs)

All-drop_seen : (P : Text → Type 0) (seen xs : List Text) → All P xs → All P (drop_seen seen xs)
unfolding drop_seen
All-drop_seen P seen [] h = tt
All-drop_seen P seen (x ∷ xs) h =
    ground (arith, All-drop_seen P seen xs h.1, All-drop_seen P (to_lower x ∷ seen) xs h.1)

All-imp : (P Q : Text → Type 0) (xs : List Text) → ((x : Text) → P x → Q x) → All P xs → All Q xs
All-imp P Q [] f h = tt
All-imp P Q (x ∷ xs) f h = (f x h.0, All-imp P Q xs f h.1)

All-Listed : (xs : List Text) → All (λ x. Listed x xs) xs
All-Listed [] = tt
All-Listed (x ∷ xs) = (
  inl refl,
  All-imp (λ y. Listed y xs) (λ y. Listed y (x ∷ xs)) xs (λ y h. inr h) (All-Listed xs),
)

module _ (goes_before : Text → Text → Bool) where
  contains-dedupe :
      (ts : List Text) (k : Text)
      → contains (lower_names (dedupe_sorted_tables goes_before ts)) k ≡ contains (lower_names ts) k
  unfolding dedupe_sorted_tables contains
  contains-dedupe ts k =
      ground (
        arith,
        contains-sort_by to_lower goes_before (drop_seen [] ts) k,
        contains-drop_seen [] ts k,
      )

  -- The list that is sent is in order, has no name twice, in whatever case, has the names of the
  -- given list and no other, up to case, and each is one of the given.
  pub dedupe_sorted_tables_lem :
      ((x y z : Text) → goes_before x y ≡ true → goes_before y z ≡ true → goes_before x z ≡ true)
      → ((x y : Text) → (goes_before x y ≡ true) ⊎ (goes_before y x ≡ true))
      → (ts : List Text) (name : Text)
      → IsSorted goes_before (dedupe_sorted_tables goes_before ts)
        × IsDistinct (lower_names (dedupe_sorted_tables goes_before ts))
        × (contains (lower_names (dedupe_sorted_tables goes_before ts)) (to_lower name)
            ≡ contains (lower_names ts) (to_lower name))
        × All (λ t. Listed t ts) (dedupe_sorted_tables goes_before ts)
  unfolding dedupe_sorted_tables
  dedupe_sorted_tables_lem transitive total ts name =
      let kept = drop_seen [] ts in
      (
        sort_by-IsSorted goes_before kept transitive total,
        sort_by-IsDistinct to_lower goes_before kept (drop_seen-IsDistinct [] ts),
        contains-dedupe ts (to_lower name),
        All-sort_by (λ t. Listed t ts) goes_before kept
            (All-drop_seen (λ t. Listed t ts) [] ts (All-Listed ts)),
      )

  click-contains :
      (p : Page) (name k : Text)
      → contains (lower_names (row goes_before p name).click) k
        ≡ (if text_eq (to_lower name) k then not (on_list p name) else contains (allowed_lower p) k)
  unfolding row on_list allowed_lower
  click-contains p name k =
      let held = or_else p.allowlist.data_of [] in
      let was = contains (lower_names held) (to_lower name) in
      elim (Bool-cases was) [
        | inl here ↦
            let others = contains-keep to_lower held (to_lower name) k in
            let kept = keep (λ x. not (text_eq (to_lower x) (to_lower name))) held in
            rw here (ground (arith, others, contains-dedupe kept k))
        | inr absent ↦
            let added = contains-added to_lower held name k in
            rw absent (
              ground (
                arith,
                contains-dedupe (held ++ (name ∷ [])) k,
                added,
                absent,
                text_eq_iff (to_lower name) k,
              ))
      ]

  -- A click on the button of a table, once the page has the list that was sent: the table is on the
  -- list exactly if it was not before, and every other table is on it exactly if it was, where a
  -- table is one name in whatever case.
  pub click-on_list :
      (p p' : Page) (name other : Text)
      → p'.allowlist.data_of ≡ some ((row goes_before p name).click)
      → on_list p' other ≡ (
          if text_eq (to_lower name) (to_lower other)
          then not (on_list p other)
          else on_list p other)
  unfolding on_list allowed_lower
  click-on_list p p' name other sent =
      let changed = click-contains p name (to_lower other) in
      ground (arith, sent, changed, text_eq_iff (to_lower name) (to_lower other))

  row-unread :
      (p : Page)
      → p.allowlist.data_of ≡ none
      → (n : Text)
      → row goes_before p n
        ≡ record { name = n; allowlisted = false; disabled = p.is_pending; click = n ∷ [] }
  unfolding row on_list allowed_lower contains dedupe_sorted_tables drop_seen sort_by
  row-unread p unread n = rw (unread, row) refl

  -- Where the allowlist could not be read, and the catalogue could, every table is shown as one that
  -- is not on the list, and a click sends a list of that table alone, whatever the list holds.
  pub view-unread :
      (p : Page) (names : List Text)
      → p.catalog.is_loading ≡ false
      → p.allowlist.is_loading ≡ false
      → p.catalog.data_of ≡ some names
      → p.allowlist.data_of ≡ none
      → view goes_before p
        ≡ rows (
            map
              (λ (n : Text). record {
                name = n;
                allowlisted = false;
                disabled = p.is_pending;
                click = n ∷ [];
              })
              names)
  unfolding view
  view-unread p names done read have unread =
      rw (done, read, have) (ap (λ f. rows (map f names)) (fun_ext (row-unread p unread)))
