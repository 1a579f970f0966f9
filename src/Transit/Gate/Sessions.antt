-- ===== src/Transit/Gate/Sessions.antt =====
-- The arrival gate keeps one seed to a session and visit, where no session identifier holds a '|'.
use homeworldz.Common.{
  ◌≡◌, ◌≢◌, refl, ap, sym, Bool, true, [], ◌∷◌, ◌++◌, ◌&&◌, ◌||◌, not, arith, if◌then◌else◌,
  Bool-cases, inl, inr,
}
use homeworldz.Common.Bytes.{Bytes, bytes_eq, bytes_eq→eq}
use homeworldz.Transit.Registry.{is_empty}
use homeworldz.Transit.Gate.{
  Seeds, contains, erase_if, starts_with, key, mark_seed_served, consume_seed, clear_session,
}

-- No byte of the text is the separator '|'.
abbrev pub IsPlain : Bytes → Type 0
IsPlain [] = Unit {0}
IsPlain (c ∷ cs) = (c ≢ b'|') × IsPlain cs

-- The prefix that `clear_session` looks for begins exactly the keys of the session.
starts_with-key :
    (s t v : Bytes) → IsPlain s → IsPlain t → starts_with (s ++ b'|' ∷ []) (key t v) ≡ bytes_eq t s
unfolding starts_with bytes_eq
starts_with-key [] [] v hs ht = refl
starts_with-key [] (d ∷ t) v hs ht = ground arith
starts_with-key (c ∷ s) [] v hs ht = ground arith
starts_with-key (c ∷ s) (d ∷ t) v hs ht = ground (arith, starts_with-key s t v hs.1 ht.1)

-- Distinct pairs of plain identifiers have distinct keys.
key-eq :
    (s t v w : Bytes)
    → IsPlain s
    → IsPlain t
    → bytes_eq (key s v) (key t w) ≡ (bytes_eq s t && bytes_eq v w)
unfolding bytes_eq
key-eq [] [] v w hs ht = refl
key-eq [] (d ∷ t) v w hs ht = ground arith
key-eq (c ∷ s) [] v w hs ht = ground arith
key-eq (c ∷ s) (d ∷ t) v w hs ht = ground (arith, key-eq s t v w hs.1 ht.1)

contains-erase_if :
    (test : Bytes → Bool) (k : Bytes) (seeds : Seeds)
    → contains k (erase_if test seeds) ≡ (not (test k) && contains k seeds)
unfolding contains erase_if
contains-erase_if test k [] = ground arith
contains-erase_if test k (s ∷ seeds) = elim (Bool-cases (bytes_eq s k)) [
  | inl e ↦ ground (arith, contains-erase_if test k seeds, ap test (bytes_eq→eq s k e))
  | inr e ↦ ground (arith, contains-erase_if test k seeds)
]

-- Whether the seed of a visit is on record as served and not consumed.
abbrev pub served : Bytes → Bytes → Seeds → Bool
served session visit seeds = contains (key session visit) seeds

module _ (session visit other later : Bytes) (seeds : Seeds) (plain : IsPlain session)
    (plain' : IsPlain other) where
  same_key :
      bytes_eq (key session visit) (key other later) ≡ true
      → served other later seeds ≡ served session visit seeds
  same_key e = ap (λ k. contains k seeds) (sym (bytes_eq→eq _ _ e))

  -- For sessions without a '|': marking records the seed of that session and visit and no other, and tells whether it is new;
  -- an empty identifier records nothing.
  pub served-mark :
      (served other later (mark_seed_served session visit seeds).1 ≡ (
        if is_empty session || is_empty visit
        then served other later seeds
        else ((bytes_eq session other && bytes_eq visit later) || served other later seeds)))
      × ((mark_seed_served session visit seeds).0
          ≡ (not (is_empty session || is_empty visit) && not (served session visit seeds)))
  unfolding mark_seed_served contains
  served-mark = elim (Bool-cases (bytes_eq (key session visit) (key other later))) [
    | inl e ↦
        (ground (arith, key-eq session other visit later plain plain', same_key e), ground arith)
    | inr e ↦ (ground (arith, key-eq session other visit later plain plain'), ground arith)
  ]

  -- For sessions without a '|': consuming takes the seed of that session and visit off the record and no other, and tells whether
  -- it was there: a seed that was marked is consumed once. An empty identifier consumes nothing.
  pub served-consume :
      (served other later (consume_seed session visit seeds).1 ≡ (
        if is_empty session || is_empty visit
        then served other later seeds
        else (not (bytes_eq other session && bytes_eq later visit) && served other later seeds)))
      × ((consume_seed session visit seeds).0
          ≡ (not (is_empty session || is_empty visit) && served session visit seeds))
  unfolding consume_seed
  served-consume = (
    ground (
      arith,
      key-eq other session later visit plain' plain,
      contains-erase_if (λ s. bytes_eq s (key session visit)) (key other later) seeds,
    ),
    ground arith,
  )

  -- For sessions without a '|': clearing a session takes exactly its own seeds off the record, and
  -- clearing the empty one takes none.
  pub served-clear : served other later (clear_session session seeds) ≡ (
      if is_empty session
      then served other later seeds
      else (not (bytes_eq other session) && served other later seeds))
  unfolding clear_session
  served-clear = ground (
    arith,
    starts_with-key session other later plain plain',
    contains-erase_if (starts_with (session ++ b'|' ∷ [])) (key other later) seeds,
  )
