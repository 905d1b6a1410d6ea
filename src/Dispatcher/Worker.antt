-- ===== src/Dispatcher/Worker.antt =====
-- egress/dispatcher.c: the loop of `dispatch_worker`.
use io_t_collector.Base.{
  ◌≡◌, refl, ap, ◌∙◌, Bool, true, false, if◌then◌else◌, Option, none, some, List, [], ◌∷◌, ◌++◌,
}
use io_t_collector.Frame.{EnvFrame}
use io_t_collector.Dispatcher.{Egress, Answers, dispatch_one, dispatch_batch}

-- A round of the loop: the frames of `ring_pop_batch` with the answers to each, and whether `g_stop` is
-- set or the run flag is 0.
pub record Round : Type 0 where
  pub batch : List (EnvFrame × Answers)
  pub leaving : Bool

abbrev after_batch : Option Egress → (Egress → Option (Bool × Egress)) → Option (Bool × Egress)
after_batch none f = none
after_batch (some e) f = f e

-- The Boolean is whether the thread has returned; `none` is a call that does not come to its end.
unfoldable pub dispatch_worker : Egress → List Round → Option (Bool × Egress)
dispatch_worker e [] = some (false, e)
dispatch_worker e (r ∷ rounds) = elim r.batch as (λ _. Option (Bool × Egress)) [
  | [] ↦ if r.leaving then some (true, e) else dispatch_worker e rounds
  | f ∷ fs ↦ after_batch (dispatch_batch e (f ∷ fs)) (λ e'. dispatch_worker e' rounds)
]

abbrev pub all_frames : List Round → List (EnvFrame × Answers)
all_frames [] = []
all_frames (r ∷ rounds) = r.batch ++ all_frames rounds

-- Rounds of which none finds the queue empty and the program ending.
pub data AllStay : List Round → Type 0 where
  no_rounds : AllStay []
  took :
      (f : EnvFrame × Answers) (fs : List (EnvFrame × Answers)) (leaving : Bool)
      {rounds : List Round}
      → AllStay rounds
      → AllStay (record { batch = f ∷ fs; leaving = leaving } ∷ rounds)
  waited :
      {rounds : List Round}
      → AllStay rounds
      → AllStay (record { batch = []; leaving = false } ∷ rounds)

-- From the one state, `dispatch_one` of each frame, once and in order, ends in the other.
pub data Dispatched : Egress → List (EnvFrame × Answers) → Egress → Type 0 where
  no_frame : {e : Egress} → Dispatched e [] e
  one_frame :
      {e m end : Egress} {fs : List (EnvFrame × Answers)} (f : EnvFrame) (a : Answers)
      → dispatch_one e f a ≡ some m
      → Dispatched m fs end
      → Dispatched e ((f, a) ∷ fs) end

abbrev then_dispatch : Option Egress → List (EnvFrame × Answers) → Option Egress
then_dispatch none fs = none
then_dispatch (some e) fs = dispatch_batch e fs

same_cases :
    (o : Option Egress) (fs : List (EnvFrame × Answers))
    → (elim o as (λ _. Option Egress) [ none ↦ none | some e ↦ dispatch_batch e fs ])
      ≡ then_dispatch o fs
same_cases none fs = refl
same_cases (some e) fs = refl

first_dispatch :
    (e : Egress) (f : EnvFrame) (a : Answers) (fs : List (EnvFrame × Answers))
    → dispatch_batch e ((f, a) ∷ fs) ≡ then_dispatch (dispatch_one e f a) fs
unfolding dispatch_batch
first_dispatch e f a fs = same_cases (dispatch_one e f a) fs

dispatch_batch-Dispatched :
    (fs : List (EnvFrame × Answers)) (gs : List (EnvFrame × Answers)) {e end : Egress}
    → Dispatched e (fs ++ gs) end
    → (m : Egress) × (dispatch_batch e fs ≡ some m) × Dispatched m gs end
unfolding dispatch_batch
dispatch_batch-Dispatched [] gs {e} d = (e, refl, d)
dispatch_batch-Dispatched (_ ∷ fs) gs (one_frame f a went d) =
    let (m, e, rest) = dispatch_batch-Dispatched fs gs d in
    (m, first_dispatch _ f a fs ∙ ap (λ o. then_dispatch o fs) went ∙ e, rest)

no_frame_end : {e end : Egress} → Dispatched e [] end → e ≡ end
no_frame_end no_frame = refl

abbrev pub last_round : Round
last_round = record { batch = []; leaving = true }

-- In whatever batches a worker takes the frames from Q2, and with any number of waits that find nothing:
-- if the calls of `dispatch_one` for all of them, once and in order, end in a state, then the worker
-- returns in just this state when it at last finds the queue empty and the program ending.
pub dispatch_worker-Dispatched :
    (rounds : List Round) {e end : Egress}
    → AllStay rounds
    → Dispatched e (all_frames rounds) end
    → dispatch_worker e (rounds ++ (last_round ∷ [])) ≡ some (true, end)
unfolding dispatch_worker
dispatch_worker-Dispatched [] no_rounds d = ap (λ s. some (true, s)) (no_frame_end d)
dispatch_worker-Dispatched (r ∷ rounds) (took f fs leaving h) d =
    let (m, e, rest) = dispatch_batch-Dispatched (f ∷ fs) (all_frames rounds) d in
    ap (λ o. after_batch o (λ s. dispatch_worker s (rounds ++ (last_round ∷ [])))) e
    ∙ dispatch_worker-Dispatched rounds h rest
dispatch_worker-Dispatched (r ∷ rounds) (waited h) d = dispatch_worker-Dispatched rounds h d
