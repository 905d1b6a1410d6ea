-- ===== src/Cleaner/Worker.antt =====
-- `cleaner_worker_task`: what a batch from Q1 does to Q2.
use io_t_collector.Base.{
  ◌+◌, ◌≤◌, ◌<◌, ◌≡◌, refl, sym, ap, ◌∙◌, arith, Bool, true, false, Bool-cases, inl, inr,
  if◌then◌else◌, none, List, [], ◌∷◌, ◌++◌, append-nil, append_assoc, length, length-append,
}
use io_t_collector.Status.{is_ok}
use io_t_collector.Frame.{EnvFrame}
use io_t_collector.Ring.{is_alarm, ring_push_try}
use io_t_collector.Ring.Inv.{IsValid, contents}
use io_t_collector.Ring.Order.{alarms, alarms-append, ring_push_try-alarms}
use io_t_collector.Station.{Doubles}
use io_t_collector.Cleaner.{
  CleanResult, clean_pass, clean_drop, clean_alarm, Contexts, Processed, cleaner_process,
  WorkerState, clean_one, clean_batch,
}
use io_t_collector.Cleaner.Process.{IsContexts, cleaner_process-IsContexts}

-- What a frame leaves, if `as` is what it adds to the alarms of Q2.
record Cleans (w : WorkerState) (added : List EnvFrame) (w' : WorkerState) : Type 0 where
  contexts : IsContexts w'.ctxs
  valid : IsValid w'.q2
  same_capacity : w'.q2.capacity ≡ w.q2.capacity
  alarms_kept : alarms (contents w'.q2) ≡ alarms (contents w.q2) ++ added

alarm_passes :
    (d : Doubles) (alloc : Bool) (ctxs : Contexts) (f : EnvFrame)
    → is_alarm f ≡ true
    → cleaner_process d alloc ctxs f
      ≡ record { result = clean_alarm; frame = f; ctxs = ctxs; counted = none }
unfolding cleaner_process
alarm_passes d alloc ctxs f h = rw h

-- The worker's use of what `cleaner_process` gave.
abbrev pushed : WorkerState → Contexts → EnvFrame → WorkerState
pushed w ctxs f =
    let (s, q) = ring_push_try w.q2 f in
    record w { ctxs = ctxs; q2 = q; drops = if is_ok s then w.drops else w.drops + 1 }

abbrev dispatched : WorkerState → Processed → WorkerState
dispatched w p = elim p.result [
  | clean_drop ↦ record w { ctxs = p.ctxs }
  | clean_pass ↦ pushed w p.ctxs p.frame
  | clean_alarm ↦ pushed w p.ctxs p.frame
]

pushed-Cleans :
    (w : WorkerState) (ctxs : Contexts) (f : EnvFrame)
    → IsValid w.q2
    → IsContexts ctxs
    → (is_alarm f ≡ true → length (alarms (contents w.q2)) < w.q2.capacity)
    → Cleans w (alarms (f ∷ [])) (pushed w ctxs f)
pushed-Cleans w ctxs f v c few =
    let (held, kept) = ring_push_try-alarms w.q2 f v few in
    record {
      contexts = c;
      valid = held.valid;
      same_capacity = held.same_capacity;
      alarms_kept = kept;
    }

-- A frame that is no alarm.
normal-Cleans :
    (w : WorkerState) (p : Processed)
    → IsValid w.q2
    → IsContexts p.ctxs
    → is_alarm p.frame ≡ false
    → Cleans w [] (dispatched w p)
normal-Cleans w p v c normal = go p.result
  where
    through : Cleans w [] (pushed w p.ctxs p.frame)
    through = rw normal at (pushed-Cleans w p.ctxs p.frame v c (λ alarm. absurd (ground arith)))

    go : (r : CleanResult) → Cleans w [] (dispatched w (record p { result = r }))
    go clean_drop = record {
      contexts = c;
      valid = v;
      same_capacity = refl;
      alarms_kept = sym (append-nil _);
    }
    go clean_pass = through
    go clean_alarm = through

clean_one-dispatched :
    (d : Doubles) (alloc : Bool) (w : WorkerState) (f : EnvFrame)
    → clean_one d alloc w f ≡ dispatched w (cleaner_process d alloc w.ctxs f)
unfolding clean_one
clean_one-dispatched d alloc w f = refl

clean_one-Cleans :
    (d : Doubles) (alloc : Bool) (w : WorkerState) (f : EnvFrame)
    → IsValid w.q2
    → IsContexts w.ctxs
    → length (alarms (contents w.q2)) + length (alarms (f ∷ [])) ≤ w.q2.capacity
    → Cleans w (alarms (f ∷ [])) (clean_one d alloc w f)
clean_one-Cleans d alloc w f v c room = elim (Bool-cases (is_alarm f)) [
  | inl alarm ↦
      let one_alarm : length (alarms (f ∷ [])) ≡ 1 = rw alarm refl in
      rw (clean_one-dispatched d alloc w f, alarm_passes d alloc w.ctxs f alarm)
        (pushed-Cleans w w.ctxs f v c (λ h. omega (arith, room, one_alarm)))
  | inr normal ↦
      let (c', same) = cleaner_process-IsContexts d alloc w.ctxs f c in
      rw (clean_one-dispatched d alloc w f, normal)
        (normal-Cleans w (cleaner_process d alloc w.ctxs f) v c' (same ∙ normal))
]

-- A worker that cleans a batch loses no alarm of it as long as the alarms in Q2 and those of the batch
-- fit Q2: after the batch Q2 is valid, and its alarms are those it had and then those of the batch, in
-- order, whatever the values in the frames are and however full Q2 is of other frames.
pub clean_batch-alarms :
    (d : Doubles) (alloc : Bool) (w : WorkerState) (fs : List EnvFrame)
    → IsValid w.q2
    → IsContexts w.ctxs
    → length (alarms (contents w.q2)) + length (alarms fs) ≤ w.q2.capacity
    → IsValid (clean_batch d alloc w fs).q2
      × (alarms (contents (clean_batch d alloc w fs).q2) ≡ alarms (contents w.q2) ++ alarms fs)
unfolding clean_batch
clean_batch-alarms d alloc w [] v c room = (v, sym (append-nil _))
clean_batch-alarms d alloc w (f ∷ fs) v c room =
    let split = alarms-append (f ∷ []) fs in
    let size : length (alarms (f ∷ fs)) ≡ length (alarms (f ∷ [])) + length (alarms fs) =
      ap length split ∙ length-append (alarms (f ∷ [])) (alarms fs) in
    let one = clean_one-Cleans d alloc w f v c (omega (arith, size, room)) in
    let held : length (alarms (contents (clean_one d alloc w f).q2))
        ≡ length (alarms (contents w.q2)) + length (alarms (f ∷ [])) =
      ap length one.alarms_kept ∙ length-append (alarms (contents w.q2)) (alarms (f ∷ [])) in
    let (valid, rest) =
      clean_batch-alarms d alloc (clean_one d alloc w f) fs one.valid one.contexts
        (omega (arith, size, held, room, one.same_capacity)) in
    (
      valid,
      rest
          ∙ ap (λ xs. xs ++ alarms fs) one.alarms_kept
          ∙ append_assoc (alarms (contents w.q2)) (alarms (f ∷ [])) (alarms fs)
          ∙ ap (λ xs. alarms (contents w.q2) ++ xs) (sym split),
    )
