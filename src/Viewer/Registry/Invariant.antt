-- ===== src/Viewer/Registry/Invariant.antt =====
-- What holds in every state that the registry reaches.
use mathlib.Core.Path.{subst}
use homeworldz.Common.{
  ℕ, ◌≡◌, ◌≢◌, refl, ap, sym, ◌∙◌, Bool, true, false, Option, none, some, List, [], ◌∷◌, arith,
  if◌then◌else◌, Bool-cases, inl, inr, ◌⊎◌,
}
use homeworldz.Common.Bytes.{Bytes, bytes_eq, bytes_eq→eq, bytes_eq_refl}
use homeworldz.Common.Assoc.{IsMap, lookup, unless}
use homeworldz.Viewer.Packet.{undefined, decode_packet}
use homeworldz.Viewer.Circuit.{Doubles}
use homeworldz.Viewer.Registry.{
  UseCircuitCode, authorized, Authorizer, Registry, conflicts, identity, remove, take_replaced,
  empty_registry, receive_from, send_to, poll_all,
}
use homeworldz.Viewer.Registry.Identity.{
  Narrows, remove-Narrows, poll_all-Narrows, send_to-Narrows, receive_from-Receives,
}
use homeworldz.Viewer.Registry.Keeps.{
  Keeps, receive_from-Keeps, send_to-Keeps, poll_all-Keeps, remove-Keeps,
}

-- Two identities with nothing in common.
abbrev pub Apart : UseCircuitCode → UseCircuitCode → Type 0
Apart x y =
    (x.circuit_code ≢ y.circuit_code) × (x.session_id ≢ y.session_id) × (x.agent_id ≢ y.agent_id)

-- No endpoint stands twice, no two endpoints have identities with a circuit code, a session or an
-- agent in common, and every endpoint has an identity that it may have.
pub record IsRegistry {D : Type 0} (May : Bytes → UseCircuitCode → Type 0) (r : Registry D)
    : Type 0 where
  pub is_map : IsMap r.circuits
  pub exclusive :
      (i j : Bytes) (x y : UseCircuitCode)
      → identity i r ≡ some x
      → identity j r ≡ some y
      → bytes_eq i j ≡ false
      → Apart x y
  pub let_in : (i : Bytes) (x : UseCircuitCode) → identity i r ≡ some x → May i x

conflicts-Apart : (x y : UseCircuitCode) → conflicts x y ≡ false → Apart x y
unfolding conflicts
conflicts-Apart x y h = (
  λ e. ground (arith, h, e),
  λ e. ground (arith, h, sym (bytes_eq_refl x.session_id) ∙ ap (λ s. bytes_eq s x.session_id) e),
  λ e. ground (arith, h, sym (bytes_eq_refl x.agent_id) ∙ ap (λ s. bytes_eq s x.agent_id) e),
)

Apart-sym : (x y : UseCircuitCode) → Apart x y → Apart y x
Apart-sym x y (code, session, agent) = (λ e. code (sym e), λ e. session (sym e), λ e. agent (sym e))

-- An endpoint that had no conflicting identity.
unless-some :
    (test : UseCircuitCode → Bool) (o : Option UseCircuitCode) (x : UseCircuitCode)
    → unless test o ≡ some x
    → (o ≡ some x) × (test x ≡ false)
unless-some test none x h = cc
unless-some test (some y) x h = elim (Bool-cases (test y)) [
  | inl q ↦ absurd (ground (arith, h, q))
  | inr q ↦ ground (arith, h, q)
]

-- A call of the registry, with its arguments; a datagram comes with the answers that the authorizer
-- gives in the state that the program is then in.
pub data Call : Type 0 where
  receives : Authorizer → Bytes → Bytes → ℕ → Call
  sends : Bytes → Bytes → Bool → Bool → ℕ → Call
  polls : ℕ → Call
  takes : Call
  removes : Bytes → Call

-- The call lets the endpoint in with an identity: it is a datagram from there, and the authorizer
-- answers yes then.
abbrev pub Admits : Call → Bytes → UseCircuitCode → Type 0
Admits (receives asked endpoint datagram now) i x = (endpoint ≡ i) × (authorized asked x ≡ true)
Admits (sends endpoint payload is_reliable is_zero_coded now) i x = ⊥
Admits (polls now) i x = ⊥
Admits takes i x = ⊥
Admits (removes endpoint) i x = ⊥

-- One of the calls lets the endpoint in with an identity.
abbrev pub AnyAdmits : List Call → Bytes → UseCircuitCode → Type 0
AnyAdmits [] i x = ⊥
AnyAdmits (c ∷ cs) i x = Admits c i x ⊎ AnyAdmits cs i x

-- No datagram of the row is read out of its bounds, after which a program has no meaning.
abbrev pub AllDefined : List Call → Type 0
AllDefined [] = Unit {0}
AllDefined (receives asked endpoint datagram now ∷ cs) =
    (decode_packet datagram ≢ undefined) × AllDefined cs
AllDefined (sends endpoint payload is_reliable is_zero_coded now ∷ cs) = AllDefined cs
AllDefined (polls now ∷ cs) = AllDefined cs
AllDefined (takes ∷ cs) = AllDefined cs
AllDefined (removes endpoint ∷ cs) = AllDefined cs

module _ {D : Type 0} (doubles : Doubles D) where
  unfoldable pub handle : Call → Registry D → Registry D
  handle (receives asked endpoint datagram now) r =
      (receive_from doubles endpoint datagram now (record r { authorizer = asked })).1
  handle (sends endpoint payload is_reliable is_zero_coded now) r =
      (send_to doubles endpoint payload is_reliable now is_zero_coded r).1
  handle (polls now) r = (poll_all doubles now r).1
  handle takes r = (take_replaced r).1
  handle (removes endpoint) r = remove endpoint r

  -- The registry after a row of calls.
  unfoldable pub handle_all : List Call → Registry D → Registry D
  handle_all [] r = r
  handle_all (c ∷ cs) r = handle_all cs (handle c r)

  Narrows-IsRegistry :
      (May : Bytes → UseCircuitCode → Type 0) (r after : Registry D)
      → IsRegistry May r
      → Narrows r after
      → IsMap after.circuits
      → IsRegistry May after
  Narrows-IsRegistry May r after h narrows is_map = record {
    is_map = is_map;
    exclusive = λ i j x y e f. h.exclusive i j x y (narrows i x e) (narrows j y f);
    let_in = λ i x e. h.let_in i x (narrows i x e);
  }

  -- Where an identity stems from, after a request was admitted.
  origin :
      (endpoint : Bytes) (requested : UseCircuitCode) (r : Registry D) (i : Bytes)
      (x : UseCircuitCode)
      → (if bytes_eq endpoint i
          then some requested
          else unless (conflicts requested) (identity i r))
        ≡ some x
      → ((bytes_eq endpoint i ≡ true) × (requested ≡ x))
        ⊎ ((identity i r ≡ some x) × (conflicts requested x ≡ false))
  origin endpoint requested r i x h = elim (Bool-cases (bytes_eq endpoint i)) [
    | inl q ↦ inl (q, ground (arith, h, q))
    | inr q ↦ inr (unless-some (conflicts requested) (identity i r) x (ground (arith, h, q)))
  ]

  -- The registry after a request was admitted.
  admitted-IsRegistry :
      (May : Bytes → UseCircuitCode → Type 0) (endpoint : Bytes) (requested : UseCircuitCode)
      (r after : Registry D)
      → IsRegistry May r
      → May endpoint requested
      → Keeps r after
      → ((i : Bytes)
          → identity i after ≡ (
              if bytes_eq endpoint i
              then some requested
              else unless (conflicts requested) (identity i r)))
      → IsRegistry May after
  admitted-IsRegistry May endpoint requested r after h allowed (same, is_map) identities = record {
    is_map = is_map;
    exclusive = λ i j x y e f differ.
        elim (origin endpoint requested r i x (sym (identities i) ∙ e)) [
          | inl (p, eq) ↦ elim (origin endpoint requested r j y (sym (identities j) ∙ f)) [
            | inl (q, _) ↦
                absurd
                  (ground (arith, differ, ap (λ k. bytes_eq k j) (bytes_eq→eq endpoint i p), q))
            | inr (g, clear) ↦ subst (λ z. Apart z y) eq (conflicts-Apart requested y clear)
          ]
          | inr (g, clear) ↦ elim (origin endpoint requested r j y (sym (identities j) ∙ f)) [
            | inl (q, eq) ↦
                subst (Apart x) eq (Apart-sym requested x (conflicts-Apart requested x clear))
            | inr (k, _) ↦ h.exclusive i j x y g k differ
          ]
        ];
    let_in = λ i x e. elim (origin endpoint requested r i x (sym (identities i) ∙ e)) [
      | inl (p, eq) ↦
          subst (May i) eq (subst (λ k. May k requested) (bytes_eq→eq endpoint i p) allowed)
      | inr (g, _) ↦ h.let_in i x g
    ];
  }

  take_replaced-IsRegistry :
      (May : Bytes → UseCircuitCode → Type 0) (r : Registry D)
      → IsRegistry May r
      → IsRegistry May (take_replaced r).1
  unfolding take_replaced identity
  take_replaced-IsRegistry May r h = record {
    is_map = h.is_map;
    exclusive = h.exclusive;
    let_in = h.let_in;
  }

  asked-IsRegistry :
      (May : Bytes → UseCircuitCode → Type 0) (asked : Authorizer) (r : Registry D)
      → IsRegistry May r
      → IsRegistry May (record r { authorizer = asked })
  unfolding identity
  asked-IsRegistry May asked r h = record {
    is_map = h.is_map;
    exclusive = h.exclusive;
    let_in = h.let_in;
  }

  handle-IsRegistry :
      (May : Bytes → UseCircuitCode → Type 0) (c : Call) (r : Registry D)
      → ((i : Bytes) (x : UseCircuitCode) → Admits c i x → May i x)
      → IsRegistry May r
      → IsRegistry May (handle c r)
  unfolding handle
  handle-IsRegistry May (receives asked endpoint datagram now) before may given =
      let r : Registry D = record before { authorizer = asked } in
      let h = asked-IsRegistry May asked before given in
      elim (receive_from-Receives doubles now r endpoint datagram h.is_map) [
        | inl narrows ↦
            Narrows-IsRegistry May r _ h narrows
              (receive_from-Keeps doubles endpoint datagram now r h.is_map).1
        | inr (requested, allowed, identities) ↦
            admitted-IsRegistry May endpoint requested r _ h
              (may endpoint requested (refl, allowed))
              (receive_from-Keeps doubles endpoint datagram now r h.is_map) identities
      ]
  handle-IsRegistry May (sends endpoint payload is_reliable is_zero_coded now) r may h =
      let kept = send_to-Keeps doubles endpoint payload is_reliable is_zero_coded now r h.is_map in
      Narrows-IsRegistry May r _ h
        (send_to-Narrows doubles now r endpoint payload is_reliable is_zero_coded) kept.1
  handle-IsRegistry May (polls now) r may h =
      Narrows-IsRegistry May r _ h (poll_all-Narrows doubles now r h.is_map)
        (poll_all-Keeps doubles now r h.is_map).1
  handle-IsRegistry May takes r may h = take_replaced-IsRegistry May r h
  handle-IsRegistry May (removes endpoint) r may h =
      Narrows-IsRegistry May r _ h (remove-Narrows endpoint r h.is_map)
        (remove-Keeps endpoint r h.is_map).1

  handle_all_from :
      (May : Bytes → UseCircuitCode → Type 0) (cs : List Call) (r : Registry D)
      → ((i : Bytes) (x : UseCircuitCode) → AnyAdmits cs i x → May i x)
      → IsRegistry May r
      → IsRegistry May (handle_all cs r)
  unfolding handle_all
  handle_all_from May [] r may h = h
  handle_all_from May (c ∷ cs) r may h =
      handle_all_from May cs (handle c r) (λ i x a. may i x (inr a))
        (handle-IsRegistry May c r (λ i x a. may i x (inl a)) h)

  empty-IsRegistry :
      (May : Bytes → UseCircuitCode → Type 0) (authorizer : Authorizer)
      → IsRegistry {D = D} May (empty_registry authorizer)
  unfolding empty_registry identity lookup
  empty-IsRegistry May authorizer = record {
    is_map = tt;
    exclusive = λ i j x y e f differ. cc;
    let_in = λ i x e. cc;
  }

  -- After any row of calls on an empty registry, in which no datagram is read out of its bounds: no
  -- endpoint stands twice, no two endpoints have a circuit code, a session or an agent in common, and
  -- every endpoint's identity is one that the authorizer let in when one of the row's datagrams came
  -- from that endpoint. What the authorizer answers may be another at every datagram.
  pub handle_all-IsRegistry :
      (authorizer : Authorizer) (cs : List Call)
      → AllDefined cs
      → IsRegistry (AnyAdmits cs) (handle_all cs (empty_registry authorizer))
  handle_all-IsRegistry authorizer cs defined =
      handle_all_from (AnyAdmits cs) cs (empty_registry authorizer) (λ i x a. a)
        (empty-IsRegistry (AnyAdmits cs) authorizer)
