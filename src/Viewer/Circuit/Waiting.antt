-- ===== src/Viewer/Circuit/Waiting.antt =====
-- The packets that wait for an acknowledgement, as the calls of a circuit change them.
use homeworldz.Common.{
  ℕ, ◌≤◌, ◌<◌, ◌≡◌, refl, ◌∙◌, false, Option, none, some, List, [], ◌∷◌, arith, ◌==◌, if_both,
  Bool-cases, inl, inr,
}
use homeworldz.Viewer.Packet.{Packet, decode_packet_ack}
use homeworldz.Viewer.Circuit.{
  Pending, contains, emplace, erase, erase_all, erase_message, erase_acked,
}
use homeworldz.Viewer.Circuit.Acks.{keys, contains-erase}
use homeworldz.Viewer.Circuit.Deliveries.{AllDistinct}

-- Every packet that waits was sent once to five times.
abbrev pub AllAttempts : List (ℕ × Pending) → Type 0
AllAttempts [] = Unit {0}
AllAttempts ((k, e) ∷ rest) = (0 < e.attempts) × (e.attempts ≤ 5) × AllAttempts rest

pub emplace-AllAttempts :
    (k : ℕ) (e : Pending) (pending : List (ℕ × Pending))
    → 0 < e.attempts
    → e.attempts ≤ 5
    → AllAttempts pending
    → AllAttempts (emplace k e pending)
unfolding emplace
emplace-AllAttempts k e [] p q h = (p, q, tt)
emplace-AllAttempts k e ((j, f) ∷ rest) p q (a, b, h) =
    (a, b, if_both AllAttempts (j == k) (λ _. h) (λ _. emplace-AllAttempts k e rest p q h))

contains-emplace_other :
    (i k : ℕ) (e : Pending) (pending : List (ℕ × Pending))
    → (k == i) ≡ false
    → contains i (keys (emplace k e pending)) ≡ contains i (keys pending)
unfolding emplace contains
contains-emplace_other i k e [] h = ground (arith, h)
contains-emplace_other i k e ((j, f) ∷ rest) h =
    ground (arith, h, contains-emplace_other i k e rest h)

pub emplace-AllDistinct :
    (k : ℕ) (e : Pending) (pending : List (ℕ × Pending))
    → AllDistinct (keys pending)
    → AllDistinct (keys (emplace k e pending))
unfolding emplace
emplace-AllDistinct k e [] h = (unfold contains in refl, tt)
emplace-AllDistinct k e ((j, f) ∷ rest) (h, hs) = elim (Bool-cases (j == k)) [
  | inl q ↦ rw q (h, hs)
  | inr q ↦
      rw q
        (contains-emplace_other j k e rest (ground (arith, q)) ∙ h, emplace-AllDistinct k e rest hs)
]

erase-AllAttempts :
    (k : ℕ) (pending : List (ℕ × Pending)) → AllAttempts pending → AllAttempts (erase k pending)
unfolding erase
erase-AllAttempts k [] h = tt
erase-AllAttempts k ((j, f) ∷ rest) (a, b, h) =
    if_both AllAttempts (j == k) (λ _. erase-AllAttempts k rest h)
      (λ _. (a, b, erase-AllAttempts k rest h))

erase-AllDistinct :
    (k : ℕ) (pending : List (ℕ × Pending))
    → AllDistinct (keys pending)
    → AllDistinct (keys (erase k pending))
unfolding erase
erase-AllDistinct k [] h = tt
erase-AllDistinct k ((j, f) ∷ rest) (h, hs) =
    if_both (λ p. AllDistinct (keys p)) (j == k) (λ _. erase-AllDistinct k rest hs)
      (λ _. (contains-erase j k rest ∙ ground (arith, h), erase-AllDistinct k rest hs))

-- What is kept of the packets that wait.
abbrev pub Waits : List (ℕ × Pending) → Type 0
Waits pending = AllAttempts pending × AllDistinct (keys pending)

erase_all-Waits :
    (ks : List ℕ) (pending : List (ℕ × Pending)) → Waits pending → Waits (erase_all ks pending)
unfolding erase_all
erase_all-Waits [] pending h = h
erase_all-Waits (k ∷ ks) pending (a, d) =
    erase_all-Waits ks (erase k pending)
      (erase-AllAttempts k pending a, erase-AllDistinct k pending d)

pub erase_acked-Waits :
    (p : Packet) (pending : List (ℕ × Pending)) → Waits pending → Waits (erase_acked p pending)
unfolding erase_acked
erase_acked-Waits p pending h = message (decode_packet_ack p.payload)
  where
    all : Waits (erase_all p.acknowledgements pending)
    all = erase_all-Waits p.acknowledgements pending h

    message : (o : Option (List ℕ)) → Waits (erase_message o (erase_all p.acknowledgements pending))
    message none = all
    message (some acks) = erase_all-Waits acks (erase_all p.acknowledgements pending) all
