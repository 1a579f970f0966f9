-- ===== src/Common/Assoc.antt =====
-- `std::unordered_map<std::string, V>` as an association list whose keys are distinct.
use homeworldz.Common.{
  ◌≡◌, refl, ap, Bool, true, Option, none, some, List, [], ◌∷◌, arith, Bool-cases, inl, inr,
  if◌then◌else◌, ◌∙◌, sym,
}
use homeworldz.Common.Bytes.{Bytes, bytes_eq, bytes_eq→eq, bytes_eq_comm}

abbrev pub Assoc : Type 0 → Type 0
Assoc V = List (Bytes × V)

-- What is found, unless the test tells to erase it.
abbrev pub unless : {V : Type 0} → (V → Bool) → Option V → Option V
unless test none = none
unless test (some v) = if test v then none else some v

-- A key equal to one of two keys is compared with the other as it is.
same_key : (i k j : Bytes) → bytes_eq i k ≡ true → bytes_eq k j ≡ bytes_eq i j
same_key i k j e = λ n. bytes_eq (sym (bytes_eq→eq i k e) n) j

module _ {V : Type 0} where
  -- `find`
  unfoldable pub lookup : Bytes → Assoc V → Option V
  lookup k [] = none
  lookup k ((j, v) ∷ m) = if bytes_eq j k then some v else lookup k m

  -- `insert_or_assign`
  unfoldable pub insert : Bytes → V → Assoc V → Assoc V
  insert k v [] = (k, v) ∷ []
  insert k v ((j, w) ∷ m) = if bytes_eq j k then (j, v) ∷ m else (j, w) ∷ insert k v m

  -- `std::erase_if`, by key and value.
  unfoldable pub erase_if : (Bytes → V → Bool) → Assoc V → Assoc V
  erase_if test [] = []
  erase_if test ((j, w) ∷ m) =
      let rest = erase_if test m in if test j w then rest else (j, w) ∷ rest

  -- No key stands twice.
  abbrev pub IsMap : Assoc V → Type 0
  IsMap [] = Unit {0}
  IsMap ((j, w) ∷ m) = (lookup j m ≡ none) × IsMap m

  pub lookup-insert :
      (k j : Bytes) (v : V) (m : Assoc V)
      → lookup j (insert k v m) ≡ (if bytes_eq k j then some v else lookup j m)
  unfolding lookup insert
  lookup-insert k j v [] = refl
  lookup-insert k j v ((i, w) ∷ m) = elim (Bool-cases (bytes_eq i k)) [
    | inl e ↦ ground (arith, same_key i k j e)
    | inr e ↦ ground (arith, lookup-insert k j v m, other)
  ]
    where
      other : bytes_eq i j ≡ true → bytes_eq k j ≡ true → bytes_eq i k ≡ true
      other p q = ap (bytes_eq i) (bytes_eq→eq k j q) ∙ p

  pub insert-IsMap : (k : Bytes) (v : V) (m : Assoc V) → IsMap m → IsMap (insert k v m)
  unfolding insert
  insert-IsMap k v [] h = (unfold lookup in refl, tt)
  insert-IsMap k v ((i, w) ∷ m) h = elim (Bool-cases (bytes_eq i k)) [
    | inl e ↦ rw e h
    | inr e ↦ rw e (lookup-insert k i v m ∙ simp (bytes_eq_comm k i, e) h.0, insert-IsMap k v m h.1)
  ]

  lookup-erase_if-none :
      (test : Bytes → V → Bool) (j : Bytes) (m : Assoc V)
      → lookup j m ≡ none
      → lookup j (erase_if test m) ≡ none
  unfolding lookup erase_if
  lookup-erase_if-none test j [] h = refl
  lookup-erase_if-none test j ((i, w) ∷ m) h = ground (arith, lookup-erase_if-none test j m)

  pub erase_if-IsMap : (test : Bytes → V → Bool) (m : Assoc V) → IsMap m → IsMap (erase_if test m)
  unfolding erase_if
  erase_if-IsMap test [] h = tt
  erase_if-IsMap test ((i, w) ∷ m) (h, hs) = elim (Bool-cases (test i w)) [
    | inl e ↦ rw e (erase_if-IsMap test m hs)
    | inr e ↦ rw e (lookup-erase_if-none test i m h, erase_if-IsMap test m hs)
  ]

  -- After `erase_if` a key has what it had, unless the test erased it.
  pub lookup-erase_if :
      (test : Bytes → V → Bool) (j : Bytes) (m : Assoc V)
      → IsMap m
      → lookup j (erase_if test m) ≡ unless (test j) (lookup j m)
  unfolding lookup erase_if
  lookup-erase_if test j [] h = refl
  lookup-erase_if test j ((i, w) ∷ m) (h, hs) = elim (Bool-cases (bytes_eq i j)) [
    | inl e ↦ ground (
      arith,
      e,
      lookup-erase_if-none test i m h,
      lookup-erase_if-none test j m (gone e),
      ap (λ k. test k w) (bytes_eq→eq i j e),
    )
    | inr e ↦ ground (arith, lookup-erase_if test j m hs)
  ]
    where
      gone : bytes_eq i j ≡ true → lookup j m ≡ none
      gone e = ap (λ k. lookup k m) (sym (bytes_eq→eq i j e)) ∙ h
