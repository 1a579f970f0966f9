-- ===== src/Texture/Faces.antt =====
-- What the faces of an object show before and after `set_face`.
use homeworldz.Common.{
  ℕ, zero, suc, ◌<◌, ◌≡◌, refl, ap, sym, ◌∙◌, true, false, none, some, [], ◌∷◌, ◌&&◌, arith, length,
  ◌==◌, if◌then◌else◌, Bool-cases, inl, inr, set, get_or,
}
use homeworldz.Common.Bytes.{Bytes}
use homeworldz.Common.Bits.{has_bit, has_bit-zero, has_bit-without_bit, has_bit-with_bit}
use homeworldz.Texture.Entry.{
  Field, index, width_of, max_faces, Exceptions, FieldValues, no_values, Entry, values_of,
  last_covering, value_for, face_value, clear_face, begins, join_face, drop_empty, set_value,
  set_face,
}

-- Every exception has a value of the width.
abbrev pub AllWide : ℕ → Exceptions → Type 0
AllWide width [] = Unit {0}
AllWide width ((mask, value) ∷ es) = (length value ≡ width) × AllWide width es

begins-eq : (v value : Bytes) → begins v value ≡ true → length v ≡ length value → v ≡ value
unfolding begins
begins-eq [] [] h e = refl
begins-eq [] (c ∷ cs) h e = absurd (omega arith)
begins-eq (b ∷ bs) [] h e = absurd (omega arith)
begins-eq (b ∷ bs) (c ∷ cs) h e = elim (Bool-cases (begins bs cs)) [
  | inl q ↦ ground (arith, begins-eq bs cs q (omega arith))
  | inr q ↦ ground arith
]

begins_refl : (v : Bytes) → begins v v ≡ true
unfolding begins
begins_refl [] = refl
begins_refl (b ∷ bs) = ground (arith, begins_refl bs)

clear_face-AllWide :
    (width face : ℕ) (es : Exceptions) → AllWide width es → AllWide width (clear_face face es)
unfolding clear_face
clear_face-AllWide width face [] h = tt
clear_face-AllWide width face ((mask, v) ∷ es) h = (h.0, clear_face-AllWide width face es h.1)

last_covering-clear_face :
    (other face : ℕ) (es : Exceptions)
    → last_covering other (clear_face face es)
      ≡ (if other == face then none else last_covering other es)
unfolding last_covering clear_face
last_covering-clear_face other face [] = ground arith
last_covering-clear_face other face ((mask, v) ∷ es) =
    rw (last_covering-clear_face other face es, has_bit-without_bit other face mask) (ground arith)

last_covering-join_face :
    (other face : ℕ) (value : Bytes) (es : Exceptions)
    → AllWide (length value) es
    → last_covering face es ≡ none
    → last_covering other (join_face face value es)
      ≡ (if other == face then some value else last_covering other es)
unfolding last_covering join_face
last_covering-join_face other face value [] h e =
    ground (arith, has_bit-with_bit other face 0, has_bit-zero other)
last_covering-join_face other face value ((mask, v) ∷ es) h e = elim (Bool-cases (begins v value)) [
  | inl q ↦
      let same : v ≡ value = begins-eq v value q h.0 in
      ground (arith, same, nothing, has_bit-with_bit other face mask, face_of)
  | inr q ↦ ground (arith, nothing, last_covering-join_face other face value es h.1 nothing)
]
  where
    nothing : last_covering face es ≡ none
    nothing = ground (arith, e)

    face_of : (other == face) ≡ true → last_covering other es ≡ last_covering face es
    face_of q = ap (λ k. last_covering k es) (ground (arith, q))

last_covering-drop_empty :
    (face : ℕ) (es : Exceptions) → last_covering face (drop_empty es) ≡ last_covering face es
unfolding last_covering drop_empty
last_covering-drop_empty face [] = refl
last_covering-drop_empty face ((mask, v) ∷ es) = elim (Bool-cases (mask == 0)) [
  | inl q ↦
      let nothing : mask ≡ 0 = ground (arith, q) in
      let bare : has_bit face mask ≡ false = ap (has_bit face) nothing ∙ has_bit-zero face in
      ground (arith, last_covering-drop_empty face es, bare)
  | inr q ↦ ground (arith, last_covering-drop_empty face es)
]

-- The faces of one field.
value_for-set_value :
    (face other : ℕ) (value : Bytes) (v : FieldValues)
    → length v.fallback ≡ length value
    → AllWide (length value) v.exceptions
    → v.present ≡ true
    → other < max_faces
    → value_for other (set_value (length value) face value v)
      ≡ (if other == face then value else value_for other v)
unfolding value_for set_value
value_for-set_value face other value v f w p o = elim (Bool-cases (begins value v.fallback)) [
  | inl q ↦
      let same : value ≡ v.fallback = begins-eq value v.fallback q (sym f) in
      ground (
        arith,
        f,
        p,
        same,
        last_covering-drop_empty other cleared,
        last_covering-clear_face other face v.exceptions,
      )
  | inr q ↦ ground (
    arith,
    f,
    p,
    last_covering-drop_empty other (join_face face value cleared),
    last_covering-join_face other face value cleared
        (clear_face-AllWide (length value) face v.exceptions w) gone,
    last_covering-clear_face other face v.exceptions,
  )
]
  where
    cleared : Exceptions
    cleared = clear_face face v.exceptions

    gone : last_covering face (clear_face face v.exceptions) ≡ none
    gone = ground (arith, last_covering-clear_face face face v.exceptions)

get_or-set :
    (vs : Entry) (i j : ℕ) (v : FieldValues)
    → i < length vs
    → get_or (set vs i v) j no_values ≡ (if j == i then v else get_or vs j no_values)
get_or-set [] i j v h = absurd (omega arith)
get_or-set (x ∷ vs) zero zero v h = refl
get_or-set (x ∷ vs) zero (suc j) v h = ground arith
get_or-set (x ∷ vs) (suc i) zero v h = ground arith
get_or-set (x ∷ vs) (suc i) (suc j) v h = ground (arith, get_or-set vs i j v (omega arith))

-- An entry of eleven fields.
abbrev pub IsEntry : Entry → Type 0
IsEntry entry = length entry ≡ 11

-- A field that is present, its fallback and all exceptions of the field's width.
pub record IsPresent (field : Field) (v : FieldValues) : Type 0 where
  pub present : v.present ≡ true
  pub fallback_wide : length v.fallback ≡ width_of field
  pub all_wide : AllWide (width_of field) v.exceptions

index-lt : (field : Field) → index field < 11
index-lt Field.texture = omega arith
index-lt Field.colour = omega arith
index-lt Field.scale_s = omega arith
index-lt Field.scale_t = omega arith
index-lt Field.offset_s = omega arith
index-lt Field.offset_t = omega arith
index-lt Field.rotation = omega arith
index-lt Field.bump = omega arith
index-lt Field.media = omega arith
index-lt Field.glow = omega arith
index-lt Field.material_id = omega arith

values_of-set_face :
    (entry : Entry) (field other : Field) (face : ℕ) (value : Bytes)
    → IsEntry entry
    → length value ≡ width_of field
    → face < max_faces
    → values_of (set_face entry field face value) other ≡ (
        if index other == index field
        then set_value (length value) face value (values_of entry field)
        else values_of entry other)
unfolding set_face
values_of-set_face entry field other face value n w f =
    ap (λ e. values_of e other) taken
    ∙ get_or-set entry (index field) (index other) _ (omega (arith, n, index-lt field))
    ∙ ap
        (λ k.
          if index other == index field
          then set_value k face value (values_of entry field)
          else values_of entry other)
        (sym w)
  where
    taken :
        set_face entry field face value
        ≡ set entry (index field) (set_value (width_of field) face value (values_of entry field))
    taken = ground (arith, f, w)

-- Setting one face of a present field to a value of the field's width gives that face the value, and
-- leaves every other face of the field, and every face of the other fields, as it was.
pub face_value-set_face :
    (entry : Entry) (field other : Field) (face k : ℕ) (value : Bytes)
    → IsEntry entry
    → IsPresent field (values_of entry field)
    → length value ≡ width_of field
    → face < max_faces
    → k < max_faces
    → face_value (set_face entry field face value) other k
      ≡ (if index other == index field && k == face then value else face_value entry other k)
unfolding face_value
face_value-set_face entry field other face k value n p w f h =
    ap (value_for k) (values_of-set_face entry field other face value n w f)
    ∙ elim (Bool-cases (index other == index field)) [
      | inl q ↦
          let same : index other ≡ index field = ground (arith, q) in
          rw q (
            changed
            ∙ ap (λ i. if k == face then value else value_for k (get_or entry i no_values))
                (sym same))
      | inr q ↦ ground (arith, q)
    ]
  where
    changed :
        value_for k (set_value (length value) face value (values_of entry field))
        ≡ (if k == face then value else value_for k (values_of entry field))
    changed =
        value_for-set_value face k value (values_of entry field) (p.fallback_wide ∙ sym w)
          (rw w p.all_wide) p.present h
