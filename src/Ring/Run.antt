-- ===== src/Ring/Run.antt =====
-- Every interleaving of the driver's pushes onto a ring (kernel/usb/xhci/ring.cpp) with the
-- controller's fetches, against a FIFO.
use mikanos_aarch.Prelude.{
  ℕ, ◌+◌, ◌<◌, ◌^◌, ◌≡◌, ◌≢◌, refl, ap, sym, subst, true, List, [], ◌∷◌, ◌++◌, Option, none, some,
  length, inl, replicate, arith,
}
use mathlib.Core.Path.{ap₂}
use mikanos_aarch.Trb.{Trb, zero_trb, trb_type}
use mikanos_aarch.Trb.LinkTrb
use mikanos_aarch.Ring.{Ring, fresh, push}
use mikanos_aarch.Ring.Consumer.{Consumer, fetch}
use mikanos_aarch.Ring.Slots.{IsValid, payload, push_fixed}
use mikanos_aarch.Ring.Invariant.{push-IsValid}
use mikanos_aarch.Ring.Refine.{Represents, push-Represents}
use mikanos_aarch.Ring.Fetch.{fetch-Represents, fetch-Represents_nil}

-- What happens next: the driver pushes, or the controller looks for work.
pub data Act : Type 0 where
  pushes : Trb → Act
  fetches : Act

-- The payloads that the controller gets, over the ring.
pub run : Ring → Consumer → List Act → List (Option Trb)
run r c [] = []
run r c (pushes t ∷ acts) = run (push r t).0 c acts
run r c (fetches ∷ acts) = elim (fetch r c) [
  | none ↦ none ∷ run r c acts
  | some (t, c') ↦ some (payload t) ∷ run r c' acts
]

-- The same over a list of what is outstanding.
pub run_queue : List Trb → List Act → List (Option Trb)
run_queue xs [] = []
run_queue xs (pushes t ∷ acts) = run_queue (xs ++ (payload t ∷ [])) acts
run_queue [] (fetches ∷ acts) = none ∷ run_queue [] acts
run_queue (x ∷ xs) (fetches ∷ acts) = some x ∷ run_queue xs acts

-- The driver pushes words of 32 bits and no links, and at most `size - 2` TRBs are outstanding.
abbrev pub Admissible : ℕ → List Trb → List Act → Type 0
Admissible size xs [] = Unit {0}
Admissible size xs (pushes t ∷ acts) =
    (t.data3 < 2 ^ 32)
    × (trb_type t ≢ LinkTrb.type)
    × (length xs + 2 < size)
    × Admissible size (xs ++ (payload t ∷ [])) acts
Admissible size [] (fetches ∷ acts) = Admissible size [] acts
Admissible size (x ∷ xs) (fetches ∷ acts) = Admissible size xs acts

-- The controller gets what a FIFO of the pushed TRBs gives, for every interleaving of pushes and
-- fetches in which the driver never has more than `buf_size - 2` TRBs outstanding.
pub run_refines :
    (acts : List Act) (r : Ring) (c : Consumer) (xs : List Trb)
    → IsValid r
    → Represents r c xs
    → Admissible r.buf_size xs acts
    → run r c acts ≡ run_queue xs acts
unfolding run run_queue
run_refines [] r c xs v q h = refl
run_refines (pushes t ∷ acts) r c xs v q (word, plain, room, h) =
    run_refines acts (push r t).0 c (xs ++ (payload t ∷ [])) (push-IsValid r t v plain)
      (push-Represents r c xs t v word room q)
      (subst (λ (n : ℕ). Admissible n (xs ++ (payload t ∷ [])) acts) (sym (push_fixed r t v).1) h)
run_refines (fetches ∷ acts) r c [] v q h =
    rw (fetch-Represents_nil r v c q, run)
      (ap (λ (l : List (Option Trb)). none ∷ l) (run_refines acts r c [] v q h))
run_refines (fetches ∷ acts) r c (x ∷ xs) v q h =
    let (t, c', e, px, q') = fetch-Represents r v c x xs q in
    rw (e, run)
      (ap₂ (λ (u : Trb) (l : List (Option Trb)). some u ∷ l) px (run_refines acts r c' xs v q' h))

-- A ring just initialised, and a controller told of its start with cycle state 1, as the command
-- ring control register and the endpoint contexts have it.
abbrev pub start : Consumer
start = record { dequeue = 0; cycle_state = true }

pub fresh-Represents : (p n : ℕ) → Represents (fresh p n (replicate n zero_trb)) start []
fresh-Represents p n = inl (record { state = refl; order = omega arith; queue = refl })
