-- ===== src/Storage/Tests.antt =====
-- The storage browser on concrete keys and uploads.
use nanas.Prelude.{ℕ, ◌≤◌, ◌≡◌, ◌↔◌, Listed, refl, true, false, [], ◌∷◌, none, some, arith}
use nanas.Prelude.Text.{codes}
use nanas.Storage.ObjectKey.{validate_object_key}
use nanas.Storage.ObjectKey.Laws.{IsObjectKey, validate_object_key_iff}
use nanas.Storage.Upload.{
  PresignResponse, File, percent, Upload, fresh_upload, rate, on_end, start_upload, react_all,
  upload_url, upload_disabled, key_input, expires_input, progressed, loaded, toast_success,
  toast_error, invalidate,
}
use nanas.Storage.Upload.Laws.{react_all-presigned, upload_lem, IsStored, rate_bounds}

validate_object_key_iff_example :
    (validate_object_key (codes "a/../b") ≡ none) ↔ IsObjectKey (codes "a/../b")
validate_object_key_iff_example = validate_object_key_iff (codes "a/../b")

abbrev signed : PresignResponse
signed = record {
  upload_url = some (codes "/up/a");
  download_url = none;
  plain_url = none;
  method = none;
  bucket = none;
}

abbrev report : File
report = record { name = codes "a"; size = 3; content_type = [] }

abbrev ready : Upload
ready = record fresh_upload { key = codes "a"; file = some report; presigned = some signed }

react_all-presigned_example :
    ((react_all
        (codes "p")
        (key_input (codes "b") ∷ expires_input (codes "60") ∷ [])
        ready).presigned
      ≡ some signed)
    × (upload_url
          (react_all (codes "p") (key_input (codes "b") ∷ expires_input (codes "60") ∷ []) ready)
        ≡ some (codes "/up/a"))
react_all-presigned_example =
    react_all-presigned (codes "p") (key_input (codes "b") ∷ expires_input (codes "60") ∷ []) ready
      (tt, (tt, tt))

upload_lem_example :
    (let running = react_all (codes "p") (progressed true 1 3 ∷ []) (start_upload ready) in
      let (after, effects) = on_end (codes "p") (loaded 200 []) running in
      (upload_disabled running ≡ true)
      × (upload_disabled after ≡ false)
      × (after.file ≡ ready.file)
      × (after.presigned ≡ ready.presigned)
      × (Listed toast_success effects ↔ IsStored (loaded 200 []))
      × (Listed (invalidate (codes "storage" ∷ codes "p" ∷ [])) effects ↔ IsStored (loaded 200 []))
      × (Listed toast_error effects ↔ (¬ IsStored (loaded 200 []))))
upload_lem_example =
    upload_lem (codes "p") (progressed true 1 3 ∷ []) ready (loaded 200 []) refl refl (tt, tt)

rate_bounds_example : (p : ℕ) × (rate 2 3 ≡ percent p) × (p ≤ 100)
rate_bounds_example = rate_bounds 2 2 (omega arith)
