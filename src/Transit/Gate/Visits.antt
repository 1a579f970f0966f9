-- ===== src/Transit/Gate/Visits.antt =====
-- The arrival gate as a set of visits: a row of calls answered as on a set of pairs of identifiers.
use homeworldz.Common.{◌≡◌, refl, ◌∙◌, Bool, false, List, [], ◌∷◌, ◌&&◌, ◌||◌, not, arith}
use homeworldz.Common.Bytes.{Bytes, bytes_eq}
use homeworldz.Transit.Registry.{is_empty}
use homeworldz.Transit.Gate.{Seeds, contains, mark_seed_served, consume_seed, clear_session}
use homeworldz.Transit.Gate.Sessions.{IsPlain, served, served-mark, served-consume, served-clear}

pub data SeedCall : Type 0 where
  marked : Bytes → Bytes → SeedCall
  consumed : Bytes → Bytes → SeedCall
  cleared : Bytes → SeedCall

-- A clearing has no answer; it is given the answer false here and below.
abbrev pub handle : SeedCall → Seeds → Bool × Seeds
handle (marked session visit) seeds = mark_seed_served session visit seeds
handle (consumed session visit) seeds = consume_seed session visit seeds
handle (cleared session) seeds = (false, clear_session session seeds)

unfoldable pub handle_all : List SeedCall → Seeds → List Bool × Seeds
handle_all [] seeds = ([], seeds)
handle_all (c ∷ cs) seeds =
    let once = handle c seeds in let rest = handle_all cs once.1 in (once.0 ∷ rest.0, rest.1)

-- A set of visits, by session and visit.
abbrev pub Visits : Type 0
Visits = Bytes → Bytes → Bool

abbrev pub no_visits : Visits
no_visits session visit = false

abbrev pub names : Bytes → Bytes → Bool
names session visit = not (is_empty session || is_empty visit)

-- What a call answers, and leaves: a visit is put in, taken out, or all visits of a session are.
abbrev pub meant : SeedCall → Visits → Bool × Visits
meant (marked session visit) v = (
  names session visit && not (v session visit),
  λ s w. (names session visit && bytes_eq session s && bytes_eq visit w) || v s w,
)
meant (consumed session visit) v = (
  names session visit && v session visit,
  λ s w. not (names session visit && bytes_eq s session && bytes_eq w visit) && v s w,
)
meant (cleared session) v =
    (false, λ s w. not (not (is_empty session) && bytes_eq s session) && v s w)

unfoldable pub meant_all : List SeedCall → Visits → List Bool × Visits
meant_all [] v = ([], v)
meant_all (c ∷ cs) v =
    let once = meant c v in let rest = meant_all cs once.1 in (once.0 ∷ rest.0, rest.1)

abbrev pub PlainCall : SeedCall → Type 0
PlainCall (marked session visit) = IsPlain session
PlainCall (consumed session visit) = IsPlain session
PlainCall (cleared session) = IsPlain session

abbrev pub PlainCalls : List SeedCall → Type 0
PlainCalls [] = Unit {0}
PlainCalls (c ∷ cs) = PlainCall c × PlainCalls cs

-- The seeds on record are those of the visits, for sessions without a '|'.
abbrev pub Records : Seeds → Visits → Type 0
Records seeds v = (s w : Bytes) → IsPlain s → served s w seeds ≡ v s w

handle-Records :
    (c : SeedCall) (seeds : Seeds) (v : Visits)
    → PlainCall c
    → Records seeds v
    → ((handle c seeds).0 ≡ (meant c v).0) × Records (handle c seeds).1 (meant c v).1
handle-Records (marked session visit) seeds v p r = (
  (served-mark session visit session visit seeds p p).1 ∙ rw (r session visit p) refl,
  λ s w q. (served-mark session visit s w seeds p q).0 ∙ rw (r s w q) (ground arith),
)
handle-Records (consumed session visit) seeds v p r = (
  (served-consume session visit session visit seeds p p).1 ∙ rw (r session visit p) refl,
  λ s w q. (served-consume session visit s w seeds p q).0 ∙ rw (r s w q) (ground arith),
)
handle-Records (cleared session) seeds v p r =
    (refl, λ s w q. served-clear session w s w seeds p q ∙ rw (r s w q) (ground arith))

handle_all-Records :
    (cs : List SeedCall) (seeds : Seeds) (v : Visits)
    → PlainCalls cs
    → Records seeds v
    → ((handle_all cs seeds).0 ≡ (meant_all cs v).0)
      × Records (handle_all cs seeds).1 (meant_all cs v).1
unfolding handle_all meant_all
handle_all-Records [] seeds v p r = (refl, r)
handle_all-Records (c ∷ cs) seeds v p r =
    let once = handle-Records c seeds v p.0 r in
    let rest = handle_all-Records cs (handle c seeds).1 (meant c v).1 p.1 once.1 in
    ((λ i. once.0 i ∷ rest.0 i), rest.1)

-- A row of calls on an empty gate, whose sessions have no '|', is answered as on a set of visits: marking
-- puts a visit in and tells whether it is new, consuming takes it out and tells whether it was there,
-- clearing takes out all visits of its session, and empty identifiers change nothing and are answered
-- false; after the row the gate has the seeds of the visits in the set, for every session without a '|'.
pub handle_all_refines :
    (cs : List SeedCall)
    → PlainCalls cs
    → ((handle_all cs []).0 ≡ (meant_all cs no_visits).0)
      × ((s w : Bytes)
          → IsPlain s
          → served s w (handle_all cs []).1 ≡ (meant_all cs no_visits).1 s w)
unfolding contains
handle_all_refines cs p = handle_all-Records cs [] no_visits p (λ s w q. refl)
