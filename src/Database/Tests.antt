-- ===== src/Database/Tests.antt =====
-- A catalogue of three tables, in the order of their length.
use nanas.Prelude.{
  ◌≡◌, refl, Bool, true, false, not, List, [], ◌∷◌, map, none, some, leb, length, arith, Listed,
  All, if◌then◌else◌,
}
use nanas.Prelude.Text.{Text, codes, text_eq, to_lower}
use nanas.Prelude.Names.{contains, IsDistinct}
use nanas.Prelude.Sort.{IsSorted}
use nanas.Queries.Raw.{Loaded}
use nanas.Database.Catalog.{dedupe_sorted_tables, Page, on_list, row, rows, view}
use nanas.Database.Catalog.Laws.{lower_names, dedupe_sorted_tables_lem, click-on_list, view-unread}

abbrev shorter : Text → Text → Bool
shorter a b = leb (length a) (length b)

abbrev tables : List Text
tables = codes "orders" ∷ codes "Notes" ∷ codes "ORDERS" ∷ []

dedupe_sorted_tables_lem_example :
    IsSorted shorter (dedupe_sorted_tables shorter tables)
    × IsDistinct (lower_names (dedupe_sorted_tables shorter tables))
    × (contains (lower_names (dedupe_sorted_tables shorter tables)) (codes "notes")
        ≡ contains (lower_names tables) (codes "notes"))
    × All (λ t. Listed t tables) (dedupe_sorted_tables shorter tables)
unfolding to_lower
dedupe_sorted_tables_lem_example =
    dedupe_sorted_tables_lem shorter (λ x y z p q. ground arith) (λ x y. ground arith) tables
      (codes "notes")

deduped : dedupe_sorted_tables shorter tables ≡ codes "Notes" ∷ codes "orders" ∷ []
unfolding dedupe_sorted_tables text_eq
deduped = refl

abbrev loaded : List Text → Loaded (List Text)
loaded ts = record { is_loading = false; error_of = none; data_of = some ts }

abbrev page : Page
page = record {
  catalog = loaded (codes "notes" ∷ codes "users" ∷ []);
  allowlist = loaded tables;
  is_pending = false;
}

abbrev clicked : Page
clicked = record page { allowlist = loaded (row shorter page (codes "notes")).click }

click-on_list_example : on_list clicked (codes "NOTES") ≡ (
    if text_eq (to_lower (codes "notes")) (to_lower (codes "NOTES"))
    then not (on_list page (codes "NOTES"))
    else on_list page (codes "NOTES"))
click-on_list_example = click-on_list shorter page clicked (codes "notes") (codes "NOTES") refl

was_on_list : on_list page (codes "NOTES") ≡ true
unfolding on_list text_eq
was_on_list = refl

abbrev unread : Page
unread = record page { allowlist = record { is_loading = false; error_of = none; data_of = none } }

view-unread_example :
    view shorter unread
    ≡ rows (
        map
          (λ (n : Text). record { name = n; allowlisted = false; disabled = false; click = n ∷ [] })
          (codes "notes" ∷ codes "users" ∷ []))
view-unread_example =
    view-unread shorter unread (codes "notes" ∷ codes "users" ∷ []) refl refl refl refl
