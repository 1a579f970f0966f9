-- ===== src/Viewer/Circuit/Resends.antt =====
-- How often `poll` of a circuit sends, and what every operation keeps of a circuit's state.
use Prim.Native.Nat.{min}
use homeworldz.Common.{
  ℕ, suc, ◌+◌, ◌-◌, ◌≤◌, ◌<◌, ◌≡◌, refl, ap, false, List, [], ◌∷◌, ◌++◌, ◌&&◌, not, arith, length,
  if_both, length-drop, length-append,
}
use homeworldz.Common.Bytes.{Bytes}
use homeworldz.Viewer.Packet.{is_nil}
use homeworldz.Viewer.Circuit.{Doubles, Bucket, Pending, Circuit, kept_acks}
use homeworldz.Viewer.Circuit.Poll.{attempt, poll_pending, poll_acks, poll}
use homeworldz.Viewer.Circuit.Acks.{taken-append-kept}

-- The sends that are left to packets which wait.
abbrev pub remaining : List (ℕ × Pending) → ℕ
remaining [] = 0
remaining ((k, e) ∷ rest) = 5 - e.attempts + remaining rest

length-kept : (queue : List ℕ) → length (kept_acks queue) ≤ length queue
length-kept queue = omega (arith, length-drop (min (length queue) 255) queue)

length-kept_less : (queue : List ℕ) → is_nil queue ≡ false → length (kept_acks queue) < length queue
length-kept_less [] h = cc
length-kept_less (q ∷ qs) h = omega (arith, length-drop (min (suc (length qs)) 255) (q ∷ qs))

module _ {D : Type 0} (doubles : Doubles D) where
  attempt-remaining :
      (now : ℕ) (e : Pending) (acks : List ℕ) (b : Bucket D)
      → length (attempt doubles now e acks b).datagrams
          + (5 - (attempt doubles now e acks b).entry.attempts)
        ≡ 5 - e.attempts
  unfolding attempt
  attempt-remaining now e acks b = ground arith

  attempt-acks :
      (now : ℕ) (e : Pending) (acks : List ℕ) (b : Bucket D)
      → length (attempt doubles now e acks b).acks ≤ length acks
  unfolding attempt
  attempt-acks now e acks b = ground (arith, length-kept acks, ap length (taken-append-kept acks))

  poll_pending-remaining :
      (now : ℕ) (pending : List (ℕ × Pending)) (acks : List ℕ) (b : Bucket D)
      → length (poll_pending doubles now pending acks b).output
          + remaining (poll_pending doubles now pending acks b).entries
        ≡ remaining pending
  unfolding poll_pending
  poll_pending-remaining now [] acks b = refl
  poll_pending-remaining now ((k, e) ∷ rest) acks b =
      let a = attempt doubles now e acks b in
      let others = poll_pending doubles now rest a.acks a.left in
      omega (
        arith,
        attempt-remaining now e acks b,
        poll_pending-remaining now rest a.acks a.left,
        length-append a.datagrams others.output,
      )

  poll_pending-acks :
      (now : ℕ) (pending : List (ℕ × Pending)) (acks : List ℕ) (b : Bucket D)
      → length (poll_pending doubles now pending acks b).acks ≤ length acks
  unfolding poll_pending
  poll_pending-acks now [] acks b = omega arith
  poll_pending-acks now ((k, e) ∷ rest) acks b =
      let a = attempt doubles now e acks b in
      omega (arith, attempt-acks now e acks b, poll_pending-acks now rest a.acks a.left)

  -- What a poll has spent.
  abbrev Spends : Circuit D → List Bytes × Circuit D → Type 0
  Spends c (output, after) =
      length output + remaining after.pending + length after.queued_acks
      ≤ remaining c.pending + length c.queued_acks

  poll_acks-Spends :
      (now : ℕ) (c : Circuit D) → is_nil c.queued_acks ≡ false → Spends c (poll_acks doubles now c)
  unfolding poll_acks
  poll_acks-Spends now c some_acks =
      ground (
        arith,
        length-kept_less c.queued_acks some_acks,
        ap length (taken-append-kept c.queued_acks),
      )

  poll-Spends : (now : ℕ) (c : Circuit D) → Spends c (poll doubles now c)
  unfolding poll
  poll-Spends now c =
      let p = poll_pending doubles now c.pending c.queued_acks c.bucket in
      let polled = record c { pending = p.entries; queued_acks = p.acks; bucket = p.left } in
      let sent = poll_pending-remaining now c.pending c.queued_acks c.bucket in
      let queue = poll_pending-acks now c.pending c.queued_acks c.bucket in
      if_both (Spends c) (is_nil p.output && not (is_nil p.acks))
        (λ q. omega (arith, sent, queue, poll_acks-Spends now polled (ground (arith, q))))
        (λ q. omega (arith, sent, queue))

  -- A row of polls.
  pub poll_times : List ℕ → Circuit D → List Bytes × Circuit D
  poll_times [] c = ([], c)
  poll_times (now ∷ times) c =
      let rest = poll_times times (poll doubles now c).1 in
      ((poll doubles now c).0 ++ rest.0, rest.1)

  -- However often a circuit is polled: with the datagrams that were sent, the sends that are left
  -- to the packets that wait, of five each, and the length of the queue of acknowledgements are
  -- together no more than these two were at the start.
  pub length-poll_times :
      (times : List ℕ) (c : Circuit D)
      → length (poll_times times c).0
          + remaining (poll_times times c).1.pending
          + length (poll_times times c).1.queued_acks
        ≤ remaining c.pending + length c.queued_acks
  unfolding poll_times
  length-poll_times [] c = omega arith
  length-poll_times (now ∷ times) c = omega (
    arith,
    poll-Spends now c,
    length-poll_times times (poll doubles now c).1,
    length-append (poll doubles now c).0 (poll_times times (poll doubles now c).1).0,
  )
