-- ===== src/Prelude/Json.antt =====
-- Parsed JSON values, as the program sees them under the type `unknown`. A number is kept by its
-- literal: no code that is modelled computes with one.
use mathlib.Core.Bool.{Bool}
use mathlib.Core.List.{List, [], ◌∷◌}
use mathlib.Core.Option.{Option, none, some}
use nanas.Prelude.Tests.{if◌then◌else◌}
use nanas.Prelude.Text.{Text, text_eq}

mutual
  pub data Json : Type 0 where
    null : Json
    bool : Bool → Json
    num : Text → Json
    str : Text → Json
    arr : Items → Json
    obj : Fields → Json

  pub data Items : Type 0 where
    nil : Items
    cons : Json → Items → Items

  pub data Fields : Type 0 where
    end : Fields
    field : Text → Json → Fields → Fields

abbrev pub items : Items → List Json
items nil = []
items (cons v vs) = v ∷ items vs

-- An own property of a parsed object; each name stands once.
unfoldable pub get_field : Text → Fields → Option Json
get_field k end = none
get_field k (field j v fs) = if text_eq j k then some v else get_field k fs

-- `v.k`, where `v` is an object that is not an array; `none` is `undefined`.
unfoldable pub property : Text → Json → Option Json
unfolding get_field
property k (obj fs) = get_field k fs
property k _ = none

-- `typeof v === 'string'`, with the text
abbrev pub as_text : Json → Option Text
as_text (str s) = some s
as_text _ = none
