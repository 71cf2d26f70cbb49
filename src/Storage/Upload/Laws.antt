-- ===== src/Storage/Upload/Laws.antt =====
-- Which object an upload writes, and when the card is ready again.
use nanas.Prelude.{
  ℕ, suc, ◌≤◌, ◌≡◌, refl, ap, ◌∙◌, Bool, true, false, List, [], ◌∷◌, Option, none, some,
  if◌then◌else◌, inl, inr, is_some, leb, ltb, ◌&&◌, ◌↔◌, ◌||◌, arith, All, Listed, ◌<◌, Bool-cases,
}
use nanas.Prelude.Text.{Text, codes, is_empty, trim, trim_start, trim_end}
use nanas.Http.{truthy}
use nanas.Storage.ObjectKey.{validate_object_key}
use nanas.Storage.ObjectKey.Laws.{IsObjectKey, validate_object_key_iff}
use nanas.Storage.Upload.{
  percent, Upload, start_upload, rate, on_progress, toast_success, toast_error, invalidate, XhrEnd,
  loaded, no_answer, on_end, presign_disabled, upload_disabled, upload_url, Event, key_input,
  expires_input, dropped, picked, presign_end, upload_click, progressed, ended, react, react_all,
  key_error, set_key, set_expires, on_drop, on_pick, presign_settled, failed,
}

-- The presign request does not end here with an answer.
abbrev pub IsNoAnswer : Event → Type 0
IsNoAnswer (presign_end (inr d)) = ⊥
IsNoAnswer _ = Unit

react-presigned :
    (pid : Text) (e : Event) (s : Upload) → IsNoAnswer e → (react pid e s).presigned ≡ s.presigned
unfolding react set_key set_expires on_drop on_pick presign_settled start_upload on_progress on_end
    failed
react-presigned pid (key_input input) s h = refl
react-presigned pid (expires_input input) s h = refl
react-presigned pid (dropped []) s h = refl
react-presigned pid (dropped (f ∷ fs)) s h = ground arith
react-presigned pid (picked []) s h = refl
react-presigned pid (picked (f ∷ fs)) s h = ground arith
react-presigned pid (presign_end (inl e)) s h = refl
react-presigned pid (presign_end (inr d)) s h = absurd h
react-presigned pid upload_click s h = ground arith
react-presigned pid (progressed computable n total) s h = ground arith
react-presigned pid (ended (loaded status message)) s h = ground arith
react-presigned pid (ended no_answer) s h = refl

-- Whatever the user enters, and whatever uploads run, the signed address stays the one that the last
-- presign request with an answer gave: a key that is entered later does not change or revoke it, so the
-- file is written under the earlier key.
pub react_all-presigned :
    (pid : Text) (es : List Event) (s : Upload)
    → All IsNoAnswer es
    → ((react_all pid es s).presigned ≡ s.presigned)
      × (upload_url (react_all pid es s) ≡ upload_url s)
unfolding react_all
react_all-presigned pid [] s h = (refl, refl)
react_all-presigned pid (e ∷ es) s h =
    let rest = react_all-presigned pid es (react pid e s) h.1 in
    let here = react-presigned pid e s h.0 in (rest.0 ∙ here, ground (arith, rest.0 ∙ here))

-- The progress of an upload, and its end.
abbrev pub IsRunning : Event → Type 0
IsRunning (progressed computable n total) = Unit
IsRunning _ = ⊥

running-progress :
    (pid : Text) (es : List Event) (s : Upload)
    → All IsRunning es
    → is_some s.progress ≡ true
    → (is_some (react_all pid es s).progress ≡ true)
      × ((react_all pid es s).file ≡ s.file)
      × ((react_all pid es s).presigned ≡ s.presigned)
unfolding react_all react on_progress
running-progress pid [] s h p = (p, refl, refl)
running-progress pid (progressed c n total ∷ es) s h p =
    ground (arith, running-progress pid es (react pid (progressed c n total) s) h.1)
running-progress pid (_ ∷ es) s h p = absurd h.0

-- The server took the file.
abbrev pub IsStored : XhrEnd → Type 0
IsStored (loaded status message) = (200 ≤ status) × (status < 300)
IsStored no_answer = ⊥

told :
    {P : Type 0} (k : List Text) (p : P)
    → (Listed toast_success (toast_success ∷ invalidate k ∷ []) ↔ P)
      × (Listed (invalidate k) (toast_success ∷ invalidate k ∷ []) ↔ P)
      × (Listed toast_error (toast_success ∷ invalidate k ∷ []) ↔ (¬ P))
told k p = (
  (λ h. p, λ h. inl refl),
  (λ h. p, λ h. inr (inl refl)),
  (
    λ h. elim h [
      | inl e ↦ absurd (cc (e))
      | inr (inl e) ↦ absurd (cc (e))
      | inr (inr e) ↦ absurd e
    ],
    λ h. absurd (h p),
  ),
)

told_lost :
    {P : Type 0} (k : List Text) (n : ¬ P)
    → (Listed toast_success (toast_error ∷ []) ↔ P)
      × (Listed (invalidate k) (toast_error ∷ []) ↔ P)
      × (Listed toast_error (toast_error ∷ []) ↔ (¬ P))
told_lost k n = (
  (λ h. elim h [ inl e ↦ absurd (cc (e)) | inr e ↦ absurd e ], λ p. absurd (n p)),
  (λ h. elim h [ inl e ↦ absurd (cc (e)) | inr e ↦ absurd e ], λ p. absurd (n p)),
  (λ h. n, λ h. inl refl),
)

end_lem :
    (pid : Text) (last : XhrEnd) (s : Upload)
    → (let (after, effects) = on_end pid last s in
        (after.progress ≡ none)
        × (after.file ≡ s.file)
        × (after.presigned ≡ s.presigned)
        × (Listed toast_success effects ↔ IsStored last)
        × (Listed (invalidate (codes "storage" ∷ pid ∷ [])) effects ↔ IsStored last)
        × (Listed toast_error effects ↔ (¬ IsStored last)))
unfolding on_end failed
end_lem pid (loaded status message) s = elim (Bool-cases (leb 200 status && ltb status 300)) [
  | inl good ↦
      let (a, b, c) =
        told {P = IsStored (loaded status message)} (codes "storage" ∷ pid ∷ []) (ground arith) in
      rw good (refl, refl, refl, a, b, c)
  | inr bad ↦
      let (a, b, c) =
        told_lost {P = IsStored (loaded status message)} (codes "storage" ∷ pid ∷ [])
          (λ (x, y). ground arith) in
      rw bad (refl, refl, refl, a, b, c)
]
end_lem pid no_answer s =
    let (a, b, c) = told_lost {P = ⊥} (codes "storage" ∷ pid ∷ []) (λ h. h) in
    (refl, refl, refl, a, b, c)

started :
    (s : Upload)
    → is_some s.file ≡ true
    → truthy (upload_url s) ≡ true
    → (is_some (start_upload s).progress ≡ true)
      × ((start_upload s).file ≡ s.file)
      × ((start_upload s).presigned ≡ s.presigned)
unfolding start_upload
started s f u = rw (f, u) (refl, refl, refl)

busy-upload_disabled : (s : Upload) → is_some s.progress ≡ true → upload_disabled s ≡ true
unfolding upload_disabled
busy-upload_disabled s h = ground arith

free-upload_disabled :
    (s : Upload)
    → s.progress ≡ none
    → is_some s.file ≡ true
    → truthy (upload_url s) ≡ true
    → upload_disabled s ≡ false
unfolding upload_disabled
free-upload_disabled s free f u = rw (f, u, free) refl

-- Once an upload has started, the button is disabled through all its progress. Its end enables the
-- button again, for the same file and address. The page says that the file is stored, and drops the
-- stored list of the project's objects, exactly if the status is one from 200 to 299, and shows an
-- error exactly if it is not, or there is no answer.
pub upload_lem :
    (pid : Text) (es : List Event) (s : Upload) (last : XhrEnd)
    → is_some s.file ≡ true
    → truthy (upload_url s) ≡ true
    → All IsRunning es
    → (let running = react_all pid es (start_upload s) in
        let (after, effects) = on_end pid last running in
        (upload_disabled running ≡ true)
        × (upload_disabled after ≡ false)
        × (after.file ≡ s.file)
        × (after.presigned ≡ s.presigned)
        × (Listed toast_success effects ↔ IsStored last)
        × (Listed (invalidate (codes "storage" ∷ pid ∷ [])) effects ↔ IsStored last)
        × (Listed toast_error effects ↔ (¬ IsStored last)))
upload_lem pid es s last f u h =
    let running = react_all pid es (start_upload s) in
    let (begun, file0, signed0) = started s f u in
    let (busy, file1, signed1) = running-progress pid es (start_upload s) h begun in
    let (free, file2, signed2, said, dropped_list, erred) = end_lem pid last running in
    let file = file2 ∙ file1 ∙ file0 in
    let signed = signed2 ∙ signed1 ∙ signed0 in
    (
      busy-upload_disabled running busy,
      free-upload_disabled (on_end pid last running).0 free (ap is_some file ∙ f)
          (ap (λ z. truthy (elim z [ none ↦ none | some d ↦ d.upload_url ])) signed ∙ u),
      file,
      signed,
      said,
      dropped_list,
      erred,
    )

-- A rate is at most a hundred percent where no more than the total is loaded, and it is a hundred at
-- the end.
pub rate_bounds :
    (n total : ℕ) → n ≤ suc total → (p : ℕ) × (rate n (suc total) ≡ percent p) × (p ≤ 100)
unfolding rate
rate_bounds n total h = (_, refl, grind arith)

free_iff {ℓ} :
    {P : Type ℓ} (a : Bool) (o : Option Text)
    → (o ≡ none) ↔ P
    → ((a || is_some o) ≡ false) ↔ (P × (a ≡ false))
free_iff true o h = ground arith
free_iff false none h = (λ e. (h.0 refl, refl), λ e. refl)
free_iff false (some t) h = (λ e. absurd (cc), λ e. absurd (cc (h.1 e.0)))

key_free :
    (key : Text)
    → ((is_empty (trim key) || is_some (if is_empty key then none else validate_object_key key))
        ≡ false)
      ↔ (IsObjectKey key × (is_empty (trim key) ≡ false))
unfolding trim trim_start trim_end
key_free [] = ground arith
key_free (c ∷ key) =
    free_iff (is_empty (trim (c ∷ key))) (validate_object_key (c ∷ key))
      (validate_object_key_iff (c ∷ key))

-- The presign request can be sent for exactly the object keys that are not blank, while none is
-- pending.
pub presign_disabled_iff :
    (s : Upload)
    → (presign_disabled false s ≡ false) ↔ (IsObjectKey s.key × (is_empty (trim s.key) ≡ false))
unfolding presign_disabled key_error
presign_disabled_iff s = key_free s.key
