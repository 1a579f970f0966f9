-- ===== src/Scene/Restore.antt =====
-- Which lists of objects `restore` accepts, and the scene that it makes of one.
use Prim.Native.Nat.{max}
use homeworldz.Common.{
  ℕ, ◌+◌, ◌<◌, ◌≤◌, ◌≡◌, refl, ap, sym, ◌∙◌, Bool, true, false, Option, none, some, List, [], ◌∷◌,
  ◌&&◌, ◌||◌, not, arith, ◌==◌, ==_iff, if◌then◌else◌, Bool-cases, Option-cases, inl, inr,
}
use homeworldz.Scene.Entity.{Entity}
use homeworldz.Scene.Store.{
  find_in, Scene, RestoreError, Restored, refused, accepted, id_out_of_range, duplicate_id, find,
  collect, link_error, links_error, restore,
}

abbrev pub is_some : {A : Type 0} → Option A → Bool
is_some none = false
is_some (some a) = true

abbrev pub is_id : ℕ → Bool
is_id id = not (id == 0 || id == 18446744073709551615)

abbrev pub Refused : {A : Type 0} → Restored A → Type 0
Refused r = (error : RestoreError) × (r ≡ refused error)

module _ {V : Type 0} where
  -- The object of a list with an id.
  unfoldable pub entity_of : ℕ → List (Entity V) → Option (Entity V)
  entity_of id [] = none
  entity_of id (e ∷ es) = if e.id == id then some e else entity_of id es

  -- All ids are in the range of ids, and no two objects have one.
  unfoldable pub ids_valid : List (Entity V) → Bool
  ids_valid [] = true
  ids_valid (e ∷ es) = is_id e.id && not (is_some (entity_of e.id es)) && ids_valid es

  abbrev pub is_root : Option (Entity V) → Bool
  is_root none = false
  is_root (some e) = e.parent_id == 0

  -- An object is linked to none, or to another one that is itself linked to none.
  abbrev pub is_linked : (ℕ → Option (Entity V)) → Entity V → Bool
  is_linked lookup e =
      e.parent_id == 0 || (not (e.parent_id == e.id) && is_root (lookup e.parent_id))

  unfoldable pub links_valid : (ℕ → Option (Entity V)) → List (Entity V) → Bool
  links_valid lookup [] = true
  links_valid lookup (e ∷ es) = is_linked lookup e && links_valid lookup es

  -- The objects found, with those of a list.
  unfoldable pub gathered : List (ℕ × Entity V) → List (Entity V) → List (ℕ × Entity V)
  gathered found [] = found
  gathered found (e ∷ es) = gathered ((e.id, e) ∷ found) es

  unfoldable pub bound : ℕ → List (Entity V) → ℕ
  bound next [] = next
  bound next (e ∷ es) = bound (max next (e.id + 1)) es

  -- None of a list's objects has the id of one found before.
  unfoldable pub is_new : List (ℕ × Entity V) → List (Entity V) → Bool
  is_new found [] = true
  is_new found (e ∷ es) = not (is_some (find_in e.id found)) && is_new found es

  -- Of two options, the first one that is there.
  abbrev either : Option (Entity V) → Option (Entity V) → Option (Entity V)
  either none b = b
  either (some e) b = some e

not_some : {A : Type 0} (o : Option A) → is_some o ≡ false → o ≡ none
not_some none h = refl
not_some (some a) h = absurd (ground (arith, h))

is_new-cons :
    {V : Type 0} (e : Entity V) (found : List (ℕ × Entity V)) (es : List (Entity V))
    → is_new ((e.id, e) ∷ found) es ≡ (is_new found es && not (is_some (entity_of e.id es)))
unfolding is_new entity_of find_in
is_new-cons e found [] = refl
is_new-cons e found (d ∷ es) = elim (Bool-cases (d.id == e.id)) [
  | inl q ↦ let same : (e.id == d.id) ≡ true = ground (arith, q) in rw (q, same) (ground arith)
  | inr q ↦
      let other : (e.id == d.id) ≡ false = ground (arith, q) in
      rw (q, other, is_new-cons e found es) (ground arith)
]

collect_refines :
    {V : Type 0} (next : ℕ) (found : List (ℕ × Entity V)) (es : List (Entity V))
    → ((ids_valid es && is_new found es) ≡ true
        → collect next found es ≡ accepted (bound next es, gathered found es))
      × ((ids_valid es && is_new found es) ≡ false → Refused (collect next found es))
unfolding collect ids_valid is_new bound gathered
collect_refines next found [] = (λ h. refl, λ h. absurd (ground (arith, h)))
collect_refines next found (e ∷ es) =
    let rest = collect_refines (max next (e.id + 1)) ((e.id, e) ∷ found) es in
    let new = is_new-cons e found es in
    elim (Bool-cases (e.id == 0 || e.id == 18446744073709551615)) [
      | inl q ↦ (λ h. absurd (ground (arith, h, q)), λ h. rw q (id_out_of_range, refl))
      | inr q ↦ elim (Option-cases (find_in e.id found)) [
        | inl n ↦ (
          λ h. rw (q, n) (rest.0 (ground (arith, new, rw (q, n) at h))),
          λ h. rw (q, n) (rest.1 (ground (arith, new, rw (q, n) at h))),
        )
        | inr (other, n) ↦
            (λ h. absurd (ground (arith, rw (q, n) at h)), λ h. rw (q, n) (duplicate_id, refl))
      ]
    ]

find_in-gathered :
    {V : Type 0} (id : ℕ) (found : List (ℕ × Entity V)) (es : List (Entity V))
    → (ids_valid es && is_new found es) ≡ true
    → find_in id (gathered found es) ≡ either (entity_of id es) (find_in id found)
unfolding gathered entity_of ids_valid is_new find_in
find_in-gathered id found [] h = refl
find_in-gathered id found (e ∷ es) h =
    let new = is_new-cons e found es in
    find_in-gathered id ((e.id, e) ∷ found) es (ground (arith, h, new))
    ∙ elim (Bool-cases (e.id == id)) [
      | inl q ↦
          let none_else : entity_of id es ≡ none =
            not_some (entity_of id es) (
              ap (λ k. is_some (entity_of k es)) (sym ((==_iff e.id id).0 q))
              ∙ ground (arith, h)) in
          rw (q, none_else) refl
      | inr q ↦ rw q refl
    ]

link_error_lem :
    {V : Type 0} (found : List (ℕ × Entity V)) (e : Entity V)
    → is_some (link_error found e.id e) ≡ not (is_linked (λ p. find_in p found) e)
link_error_lem found e = elim (Bool-cases (e.parent_id == 0)) [
  | inl q ↦ rw q refl
  | inr q ↦ elim (Option-cases (find_in e.parent_id found)) [
    | inl n ↦ rw (q, n) (ground arith)
    | inr (parent, n) ↦ elim (Bool-cases (e.parent_id == e.id)) [
      | inl r ↦ rw (q, n, r) refl
      | inr r ↦ elim (Bool-cases (parent.parent_id == 0)) [
        | inl t ↦ rw (q, n, r, t) refl
        | inr t ↦ rw (q, n, r, t) refl
      ]
    ]
  ]
]

first_error :
    (o rest : Option RestoreError)
    → is_some (elim o [ some error ↦ some error | none ↦ rest ]) ≡ (is_some o || is_some rest)
first_error none rest = refl
first_error (some error) rest = refl

links_error-cons :
    {V : Type 0} (found m : List (ℕ × Entity V)) (e : Entity V)
    → is_some (links_error found ((e.id, e) ∷ m))
      ≡ (not (is_linked (λ p. find_in p found) e) || is_some (links_error found m))
unfolding links_error
links_error-cons found m e =
    first_error (link_error found e.id e) (links_error found m)
    ∙ ap (λ b. b || is_some (links_error found m)) (link_error_lem found e)

links_error-gathered :
    {V : Type 0} (found m : List (ℕ × Entity V)) (es : List (Entity V))
    → is_some (links_error found (gathered m es))
      ≡ (is_some (links_error found m) || not (links_valid (λ p. find_in p found) es))
unfolding gathered links_valid
links_error-gathered found m [] = ground arith
links_error-gathered found m (e ∷ es) =
    links_error-gathered found ((e.id, e) ∷ m) es ∙ rw (links_error-cons found m e) (ground arith)

bound-above : {V : Type 0} (next : ℕ) (es : List (Entity V)) → next ≤ bound next es
unfolding bound
bound-above next [] = omega arith
bound-above next (e ∷ es) = omega (arith, bound-above (max next (e.id + 1)) es)

entity_of-bound :
    {V : Type 0} (next id : ℕ) (es : List (Entity V))
    → is_some (entity_of id es) ≡ true
    → id < bound next es
unfolding bound entity_of
entity_of-bound next id [] h = absurd (ground (arith, h))
entity_of-bound next id (e ∷ es) h = elim (Bool-cases (e.id == id)) [
  | inl q ↦ ground (arith, q, bound-above (max next (e.id + 1)) es)
  | inr q ↦ entity_of-bound (max next (e.id + 1)) id es (rw q at h)
]

is_new-nil : {V : Type 0} (es : List (Entity V)) → is_new [] es ≡ true
unfolding is_new find_in
is_new-nil [] = refl
is_new-nil (e ∷ es) = is_new-nil es

either-none : {V : Type 0} (o : Option (Entity V)) → either o none ≡ o
either-none none = refl
either-none (some e) = refl

-- Which lists of objects are restored, and what of: if all ids are in the range of ids and no two
-- objects have one, and each object is linked to none or to another one that is itself linked to none,
-- the scene has the revision given and under every id the object of the list with that id, and all ids
-- are below the id that the next object gets; if not, the list is refused.
pub restore_refines :
    {V : Type 0} (revision : ℕ) (es : List (Entity V))
    → ((ids_valid es && links_valid (λ p. entity_of p es) es) ≡ true
        → (s : Scene V) × (restore revision es ≡ accepted s)
          × (s.revision ≡ revision)
          × ((id : ℕ) → find s id ≡ entity_of id es)
          × ((id : ℕ) → is_some (find s id) ≡ true → id < s.next_id))
      × ((ids_valid es && links_valid (λ p. entity_of p es) es) ≡ false
          → (error : RestoreError) × (restore revision es ≡ refused error))
unfolding restore find find_in entity_of links_error links_valid
restore_refines revision es =
    let both = collect_refines 1 [] es in
    let new = is_new-nil es in
    elim (Bool-cases (ids_valid es)) [
      | inl q ↦
          let same : (id : ℕ) → find_in id (gathered [] es) ≡ entity_of id es =
            λ id. find_in-gathered id [] es (rw (q, new) refl) ∙ either-none (entity_of id es) in
          let links : is_some (links_error (gathered [] es) (gathered [] es))
              ≡ not (links_valid (λ p. entity_of p es) es) =
            links_error-gathered (gathered [] es) [] es
            ∙ ap (λ f. not (links_valid f es)) (λ i p. same p i) in
          let found = both.0 (rw (q, new) refl) in
          (
            λ h.
                let good : links_error (gathered [] es) (gathered [] es) ≡ none =
                  not_some (links_error (gathered [] es) (gathered [] es))
                    (ground (arith, links, h, q)) in
                (
                  record {
                    next_id = bound 1 es;
                    revision = revision;
                    simulation_steps = 0;
                    entities = gathered [] es;
                  },
                  rw (found, good) refl,
                  refl,
                  same,
                  λ id e. entity_of-bound 1 id es (ap is_some (sym (same id)) ∙ e),
                ),
            λ h. elim (Option-cases (links_error (gathered [] es) (gathered [] es))) [
              | inl n ↦ absurd (ground (arith, links, rw n at links, h, q))
              | inr (error, n) ↦ (error, (rw (found, n) refl))
            ],
          )
      | inr q ↦
          let no = both.1 (rw q refl) in
          (λ h. absurd (ground (arith, h, q)), λ h. (no.0, (rw no.1 refl)))
    ]
