-- ===== src/Triggers/Laws.antt =====
-- The configuration of a trigger that is created.
use nanas.Prelude.{◌≡◌, refl, false, some, ◌⊎◌, inl, inr, Bool-cases, arith, ap, if◌then◌else◌}
use nanas.Prelude.Text.{Text, text_eq, text_eq_iff, is_empty, trim}
use nanas.Prelude.Json.{Json, Fields, obj, field, end, property, get_field}
use nanas.Triggers.{Page, config_of, has_transform, transform_json, set_field, payload_transform}

get_field-set_field :
    (name k : Text) (v : Json) (fs : Fields)
    → get_field k (set_field name v fs) ≡ (if text_eq name k then some v else get_field k fs)
unfolding get_field set_field
get_field-set_field name k v end = refl
get_field-set_field name k v (field j w fs) = elim (Bool-cases (text_eq j name)) [
  | inl same ↦
      let eq : j ≡ name = (text_eq_iff j name).0 same in
      let alike : text_eq j k ≡ text_eq name k = ap (λ z. text_eq z k) eq in
      elim (Bool-cases (text_eq name k)) [
        | inl here ↦ rw (same, alike, here) refl
        | inr there ↦ rw (same, alike, there) refl
      ]
  | inr other ↦
      let below = get_field-set_field name k v fs in
      elim (Bool-cases (text_eq j k)) [
        | inl here ↦
            let eq : j ≡ k = (text_eq_iff j k).0 here in
            let apart : text_eq name k ≡ false =
              ground (arith, other, eq, text_eq_iff j name, text_eq_iff name k) in
            rw (other, apart, get_field, here) refl
        | inr there ↦ rw (other, get_field, there) below
      ]
]

-- The configuration that is sent for an object: under `payload_transform` stands the transform of
-- the builder, where it has one, and every other field is that of the object.
pub property-config_of :
    (parse : Text → Text ⊎ Json) (indexed : Json → Fields) (p : Page) (fs : Fields) (k : Text)
    → is_empty (trim p.config) ≡ false
    → parse p.config ≡ inr (obj fs)
    → (cfg : Json) × (config_of parse indexed p ≡ inr cfg)
      × (property k cfg ≡ (
          if has_transform p.transform
          then (if text_eq payload_transform k
              then some (transform_json p.transform)
              else get_field k fs)
          else get_field k fs))
unfolding config_of property
property-config_of parse indexed p fs k full reads = elim (Bool-cases (has_transform p.transform)) [
  | inl there ↦ (
    obj (set_field payload_transform (transform_json p.transform) fs),
    rw (config_of, full, reads, there) refl,
    rw there (get_field-set_field payload_transform k (transform_json p.transform) fs),
  )
  | inr missing ↦ (obj fs, rw (config_of, full, reads, missing) refl, rw missing refl)
]
