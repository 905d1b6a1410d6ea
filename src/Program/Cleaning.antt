-- ===== src/Program/Cleaning.antt =====
-- main.c: `cleaner_thread`, the loop between Q1 and Q2 that the program runs.
use io_t_collector.Base.{
  ℕ, ◌+◌, ◌≡◌, refl, ap, ◌∙◌, Bool, if◌then◌else◌, Option, none, some, List, [], ◌∷◌,
}
use io_t_collector.Status.{Status, is_ok}
use io_t_collector.Frame.{EnvFrame}
use io_t_collector.Ring.{Ring, ring_push_try}
use io_t_collector.Stats.{Stats, stats_on_clean, stats_on_drop}
use io_t_collector.Station.{Doubles}
use io_t_collector.Cleaner.{
  CleanResult, clean_pass, clean_drop, clean_alarm, Contexts, Processed, cleaner_process,
  WorkerState, clean_one, clean_batch,
}

-- The contexts of the cleaner, Q2 and the counters.
pub record CleanerState : Type 0 where
  pub ctxs : Contexts
  pub q2 : Ring
  pub stats : Stats

-- The counter of a dropped frame, which `cleaner_process` itself increments.
abbrev count_dropped : Option ℕ → Stats → Stats
count_dropped none s = s
count_dropped (some kind) s = stats_on_clean s kind 1

abbrev count_refused : Status → Stats → Stats
count_refused s stats = if is_ok s then stats else stats_on_drop stats 1

-- The push of a frame that passed, of kind 0, or of an alarm, of kind 1.
abbrev forward : CleanerState → Processed → ℕ → CleanerState
forward w p kind =
    let (s, q) = ring_push_try w.q2 p.frame in
    record {
      ctxs = p.ctxs;
      q2 = q;
      stats = count_refused s (stats_on_clean (count_dropped p.counted w.stats) kind 1);
    }

abbrev routed : CleanerState → Processed → CleanResult → CleanerState
routed w p clean_pass = forward w p 0
routed w p clean_alarm = forward w p 1
routed w p clean_drop = record w { ctxs = p.ctxs; stats = count_dropped p.counted w.stats }

-- The body of the loop over a batch.
unfoldable pub clean_frame : Doubles → Bool → CleanerState → EnvFrame → CleanerState
clean_frame d alloc w frame = let p = cleaner_process d alloc w.ctxs frame in routed w p p.result

unfoldable pub clean_frames : Doubles → Bool → CleanerState → List EnvFrame → CleanerState
clean_frames d alloc w [] = w
clean_frames d alloc w (f ∷ fs) = clean_frames d alloc (clean_frame d alloc w f) fs

-- The rounds of `cleaner_thread`: `g_running` when it is tested, and the batch of `ring_pop_batch`.
unfoldable pub cleaner_thread :
    Doubles → Bool → CleanerState → List (Bool × List EnvFrame) → CleanerState
cleaner_thread d alloc w [] = w
cleaner_thread d alloc w ((running, batch) ∷ rounds) =
    let rest = cleaner_thread d alloc (clean_frames d alloc w batch) rounds in
    if running then rest else w

-- The state of `cleaner_worker_task`, with its number of lost frames.
abbrev pub as_worker : CleanerState → ℕ → WorkerState
as_worker w n = record { ctxs = w.ctxs; q2 = w.q2; drops = n }

abbrev pushed : CleanerState → Processed → ℕ → WorkerState
pushed w p n =
    let (s, q) = ring_push_try w.q2 p.frame in
    record { ctxs = p.ctxs; q2 = q; drops = if is_ok s then n else n + 1 }

-- The two loops on a frame of which `cleaner_process` gave `p`.
same_route :
    (w : CleanerState) (p : Processed) (n : ℕ) (r : CleanResult)
    → (m : ℕ) × ((elim r as (λ _. WorkerState) [
      | clean_drop ↦ record { ctxs = p.ctxs; q2 = w.q2; drops = n }
      | clean_pass ↦ pushed w p n
      | clean_alarm ↦ pushed w p n
    ])
        ≡ as_worker (routed w p r) m)
same_route w p n clean_drop = (n, refl)
same_route w p n clean_pass = ((pushed w p n).drops, refl)
same_route w p n clean_alarm = ((pushed w p n).drops, refl)

clean_frame-clean_one :
    (d : Doubles) (alloc : Bool) (w : CleanerState) (n : ℕ) (f : EnvFrame)
    → (m : ℕ) × (clean_one d alloc (as_worker w n) f ≡ as_worker (clean_frame d alloc w f) m)
unfolding clean_one clean_frame
clean_frame-clean_one d alloc w n f =
    let p = cleaner_process d alloc w.ctxs f in same_route w p n p.result

-- The loop that `main` runs and `cleaner_worker_task` do the same to the contexts and to Q2, for every
-- batch: they differ only in the counters.
pub clean_frames-clean_batch :
    (d : Doubles) (alloc : Bool) (w : CleanerState) (n : ℕ) (batch : List EnvFrame)
    → (m : ℕ) × (clean_batch d alloc (as_worker w n) batch
        ≡ as_worker (clean_frames d alloc w batch) m)
unfolding clean_batch clean_frames
clean_frames-clean_batch d alloc w n [] = (n, refl)
clean_frames-clean_batch d alloc w n (f ∷ fs) =
    let (k, step) = clean_frame-clean_one d alloc w n f in
    let (m, rest) = clean_frames-clean_batch d alloc (clean_frame d alloc w f) k fs in
    (m, ap (λ v. clean_batch d alloc v fs) step ∙ rest)
