-- ===== src/Ingress/Offer.antt =====
-- Frames that are offered to Q1 one after the other, and the counters.
use mathlib.Core.Path.{subst}
use io_t_collector.Base.{
  ℕ, suc, ◌+◌, ◌%◌, ◌^◌, ◌≡◌, refl, sym, arith, Bool, true, false, List, [], ◌∷◌, length,
  if◌then◌else◌,
}
use io_t_collector.Status.{Status, ok, is_ok}
use io_t_collector.Frame.{EnvFrame}
use io_t_collector.Ring.{ring_push_try}
use io_t_collector.Ring.Queue
use io_t_collector.Ring.Inv.{contents}
use io_t_collector.Ring.Push.{Holds, ring_push_try_refines}
use io_t_collector.Stats.{Stats, stats_on_ingress, stats_on_drop}
use io_t_collector.Ingress.{Intake, count_push, admit, admit_all}

-- The queue of capacity `cap` after the frames were pushed one by one, and how many of them it took.
unfoldable pub offer_all : ℕ → List EnvFrame → List EnvFrame → List EnvFrame × ℕ
offer_all cap queue [] = (queue, 0)
offer_all cap queue (f ∷ fs) =
    let (s, queue') = Queue.push_try cap queue f in
    let (end, taken) = offer_all cap queue' fs in (end, (if is_ok s then 1 else 0) + taken)

-- The counters after `taken` frames were counted as accepted, `refused` as lost and `bad` datagrams as
-- not decodable.
pub record Counted (s : Stats) (taken refused bad : ℕ) (t : Stats) : Type 0 where
  pub ingress : t.ingress_total % 2 ^ 64 ≡ (s.ingress_total + taken) % 2 ^ 64
  pub lost : t.dropped_total % 2 ^ 64 ≡ (s.dropped_total + refused) % 2 ^ 64
  pub undecoded : t.decode_fail % 2 ^ 64 ≡ (s.decode_fail + bad) % 2 ^ 64

-- What offering `fs` to a queue that holds `queue` leaves: a valid queue with the frames of the
-- specification, and counters in which every frame is counted once.
pub record Offered (cap : ℕ) (queue : List EnvFrame) (s : Stats) (fs : List EnvFrame) (t : Intake)
    : Type 0 where
  pub holds : Holds cap (offer_all cap queue fs).0 t.q1
  pub refused : ℕ
  pub all : (offer_all cap queue fs).1 + refused ≡ length fs
  pub counted : Counted s (offer_all cap queue fs).1 refused 0 t.stats

push_counted :
    (s : Status) (proto : ℕ) (stats : Stats)
    → Counted stats
        (if is_ok s then 1 else 0)
        (if is_ok s then 0 else 1)
        0
        (count_push s proto stats)
unfolding stats_on_ingress stats_on_drop
push_counted ok proto stats = record {
  ingress = ground arith;
  lost = ground arith;
  undecoded = ground arith;
}
push_counted _ proto stats = record {
  ingress = ground arith;
  lost = ground arith;
  undecoded = ground arith;
}

module _ (proto : ℕ) (cap : ℕ) (queue : List EnvFrame) (s : Intake) (f : EnvFrame)
    (h : Holds cap queue s.q1) where
  abbrev pub verdict : Status
  verdict = (Queue.push_try cap queue f).0

  pushed_as :
      (verdict ≡ (ring_push_try s.q1 f).0)
      × Holds cap (Queue.push_try cap queue f).1 (ring_push_try s.q1 f).1
  pushed_as =
      let (same, held) = ring_push_try_refines s.q1 f h.valid in
      subst
        (λ fs.
          ((Queue.push_try cap fs f).0 ≡ (ring_push_try s.q1 f).0)
          × Holds cap (Queue.push_try cap fs f).1 (ring_push_try s.q1 f).1)
        h.holds
        (subst
          (λ n.
            ((Queue.push_try n (contents s.q1) f).0 ≡ (ring_push_try s.q1 f).0)
            × Holds n (Queue.push_try n (contents s.q1) f).1 (ring_push_try s.q1 f).1)
          h.same_capacity (sym same, held))

  pub one_admitted :
      Holds cap (Queue.push_try cap queue f).1 (admit proto s f).q1
      × Counted s.stats
          (if is_ok verdict then 1 else 0)
          (if is_ok verdict then 0 else 1)
          0
          (admit proto s f).stats
  unfolding admit
  one_admitted = (
    pushed_as.1,
    subst
        (λ v.
          Counted s.stats (if is_ok v then 1 else 0) (if is_ok v then 0 else 1) 0
            (count_push (ring_push_try s.q1 f).0 proto s.stats))
        (sym pushed_as.0) (push_counted (ring_push_try s.q1 f).0 proto s.stats),
  )

pub counted_twice :
    {s t u : Stats} {a b c d n : ℕ}
    → Counted s a b 0 t
    → Counted t c d n u
    → Counted s (a + c) (b + d) n u
counted_twice k l = record {
  ingress = omega (arith, k.ingress, l.ingress);
  lost = omega (arith, k.lost, l.lost);
  undecoded = omega (arith, k.undecoded, l.undecoded);
}

pub counted_none : (s : Stats) → Counted s 0 0 0 s
counted_none s = record { ingress = omega arith; lost = omega arith; undecoded = omega arith }

-- Frames offered one by one to a valid Q1 leave it as the queue of alarms and normal frames would be
-- left, each is counted exactly once, as accepted or as lost, and those accepted are the ones that
-- the queue takes.
pub admit_all-Offered :
    (proto cap : ℕ) (queue : List EnvFrame) (s : Intake) (fs : List EnvFrame)
    → Holds cap queue s.q1
    → Offered cap queue s.stats fs (admit_all proto s fs)
unfolding admit_all offer_all
admit_all-Offered proto cap queue s [] h = record {
  holds = h;
  refused = 0;
  all = refl;
  counted = counted_none s.stats;
}
admit_all-Offered proto cap queue s (f ∷ fs) h =
    let (held, counted) = one_admitted proto cap queue s f h in
    let v = is_ok (Queue.push_try cap queue f).0 in
    let rest =
      admit_all-Offered proto cap (Queue.push_try cap queue f).1 (admit proto s f) fs held in
    record {
      holds = rest.holds;
      refused = (if v then 0 else 1) + rest.refused;
      all = one_each v _ _ rest.all;
      counted = counted_twice counted rest.counted;
    }
  where
    one_each :
        (v : Bool) (n m : ℕ)
        → n + m ≡ length fs
        → (if v then 1 else 0) + n + ((if v then 0 else 1) + m) ≡ suc (length fs)
    one_each true n m e = omega arith
    one_each false n m e = omega arith
