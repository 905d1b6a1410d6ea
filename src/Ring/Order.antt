-- ===== src/Ring/Order.antt =====
-- Sequences of pushes and pops under the ring's lock.
use io_t_collector.Base.{
  ℕ, ◌<◌, ◌≡◌, ◌≢◌, refl, sym, ap, ap₂, ◌∙◌, arith, true, false, Bool-cases, if◌then◌else◌, ◌==◌,
  inl, inr, List, [], ◌∷◌, ◌++◌, append-nil, append_assoc, tabulate, take-append-drop, length,
}
use io_t_collector.Status.{
  Status, ok, err_generic, err_again, err_full, err_empty, err_nomem, err_proto, err_io,
  err_timeout, err_shutdown,
}
use io_t_collector.Frame.{EnvFrame}
use io_t_collector.Ring.{Ring, is_alarm, ring_push_try, take_batch}
use io_t_collector.Ring.Queue
use io_t_collector.Ring.Queue.{without_oldest_normal, all_alarms}
use io_t_collector.Ring.Inv.{IsValid, cell, contents}
use io_t_collector.Ring.Push.{Holds, ring_push_try_refines}
use io_t_collector.Ring.Pop.{take_batch_lem}

-- A producer's `ring_push_try`, or a consumer's turn in `ring_pop_batch`.
pub data Turn : Type 0 where
  push : EnvFrame → Turn
  pop : ℕ → Turn

-- The ring, the frames accepted so far and the frames delivered so far.
pub record Log : Type 0 where
  pub ring : Ring
  pub accepted : List EnvFrame
  pub delivered : List EnvFrame

abbrev note_push : Status → EnvFrame → List EnvFrame → List EnvFrame
note_push ok f fs = fs ++ (f ∷ [])
note_push _ f fs = fs

-- A consumer that finds nothing waits, and takes no frame.
unfoldable pub turn : Log → Turn → Log
turn l (push f) =
    let (s, q) = ring_push_try l.ring f in
    record { ring = q; accepted = note_push s f l.accepted; delivered = l.delivered }
turn l (pop max_n) =
    let (out, q) = take_batch l.ring max_n in
    record { ring = q; accepted = l.accepted; delivered = l.delivered ++ out }

unfoldable pub run : Log → List Turn → Log
run l [] = l
run l (t ∷ ts) = run (turn l t) ts

abbrev pub alarms : List EnvFrame → List EnvFrame
alarms [] = []
alarms (f ∷ fs) = let rest = alarms fs in if is_alarm f then f ∷ rest else rest

pub alarms-append : (xs ys : List EnvFrame) → alarms (xs ++ ys) ≡ alarms xs ++ alarms ys
alarms-append [] ys = refl
alarms-append (x ∷ xs) ys = elim (Bool-cases (is_alarm x)) [
  | inl a ↦ rw a (ap (λ t. x ∷ t) (alarms-append xs ys))
  | inr n ↦ rw n (alarms-append xs ys)
]

alarms-without : (fs : List EnvFrame) → alarms (without_oldest_normal fs) ≡ alarms fs
unfolding without_oldest_normal
alarms-without [] = refl
alarms-without (f ∷ fs) = elim (Bool-cases (is_alarm f)) [
  | inl a ↦ rw a (rw a (ap (λ t. f ∷ t) (alarms-without fs)))
  | inr n ↦ rw n
]

-- The alarms of the queue after a push are those before it and the one accepted.
push_alarms :
    (cap : ℕ) (fs : List EnvFrame) (f : EnvFrame)
    → let (s, fs') = Queue.push_try cap fs f in alarms fs' ≡ alarms fs ++ alarms (note_push s f [])
unfolding Queue.push_try
push_alarms cap fs f = elim (Bool-cases (length fs == cap)) [
  | inr room ↦ rw room (alarms-append fs (f ∷ []))
  | inl full ↦ elim (Bool-cases (is_alarm f)) [
    | inr normal ↦ rw (full, normal) (sym (append-nil (alarms fs)))
    | inl alarm ↦ elim (Bool-cases (all_alarms fs)) [
      | inl all ↦ rw (full, alarm, all) (sym (append-nil (alarms fs)))
      | inr some_normal ↦
          rw (full, alarm, some_normal)
            (alarms-append (without_oldest_normal fs) (f ∷ [])
              ∙ ap (λ xs. xs ++ alarms (f ∷ [])) (alarms-without fs))
    ]
  ]
]

contents_nil : (q : Ring) → q.count ≡ 0 → contents q ≡ []
contents_nil q h = ap (λ n. tabulate n (cell q)) h

-- What a sequence of turns keeps.
pub record Kept (l : Log) : Type 0 where
  pub valid : IsValid l.ring
  pub balanced : alarms (l.delivered ++ contents l.ring) ≡ alarms l.accepted

alarms-note :
    (s : Status) (f : EnvFrame) (fs : List EnvFrame)
    → alarms (note_push s f fs) ≡ alarms fs ++ alarms (note_push s f [])
alarms-note ok f fs = alarms-append fs (f ∷ [])
alarms-note err_generic f fs = sym (append-nil (alarms fs))
alarms-note err_again f fs = sym (append-nil (alarms fs))
alarms-note err_full f fs = sym (append-nil (alarms fs))
alarms-note err_empty f fs = sym (append-nil (alarms fs))
alarms-note err_nomem f fs = sym (append-nil (alarms fs))
alarms-note err_proto f fs = sym (append-nil (alarms fs))
alarms-note err_io f fs = sym (append-nil (alarms fs))
alarms-note err_timeout f fs = sym (append-nil (alarms fs))
alarms-note err_shutdown f fs = sym (append-nil (alarms fs))

turn-Kept : (l : Log) (t : Turn) → Kept l → Kept (turn l t)
unfolding turn
turn-Kept l (push f) k =
    let (same, held) = ring_push_try_refines l.ring f k.valid in
    let s = (ring_push_try l.ring f).0 in
    record {
      valid = held.valid;
      balanced =
          alarms-append l.delivered _
          ∙ ap (λ fs. alarms l.delivered ++ alarms fs) held.holds
          ∙ ap (λ xs. alarms l.delivered ++ xs) (push_alarms l.ring.capacity (contents l.ring) f)
          ∙ sym (append_assoc (alarms l.delivered) (alarms (contents l.ring)) _)
          ∙ ap₂ (λ xs r. xs ++ alarms (note_push r f []))
              (sym (alarms-append l.delivered (contents l.ring)) ∙ k.balanced) (sym same)
          ∙ sym (alarms-note s f l.accepted);
    }
turn-Kept l (pop max_n) k =
    let (out, held) = take_batch_lem l.ring max_n k.valid in
    record {
      valid = held.valid;
      balanced =
          ap₂ (λ xs ys. alarms ((l.delivered ++ xs) ++ ys)) out held.holds
          ∙ ap alarms (append_assoc l.delivered _ _)
          ∙ ap (λ xs. alarms (l.delivered ++ xs)) (take-append-drop _ (contents l.ring))
          ∙ k.balanced;
    }

run-Kept : (l : Log) (ts : List Turn) → Kept l → Kept (run l ts)
unfolding run
run-Kept l [] k = k
run-Kept l (t ∷ ts) k = run-Kept (turn l t) ts (turn-Kept l t k)

-- From a valid empty ring, after any sequence of calls of
-- `ring_push_try` and `ring_pop_batch` the alarms delivered so far followed
-- by those still in the ring are exactly the accepted alarms, in the order of their acceptance.
pub run-keeps_alarms :
    (q : Ring) (ts : List Turn)
    → IsValid q
    → q.count ≡ 0
    → let l = run (record { ring = q; accepted = []; delivered = [] }) ts in
      IsValid l.ring × (alarms (l.delivered ++ contents l.ring) ≡ alarms l.accepted)
run-keeps_alarms q ts v empty =
    let k =
      run-Kept (record { ring = q; accepted = []; delivered = [] }) ts
        (record { valid = v; balanced = ap alarms (contents_nil q empty) }) in
    (k.valid, k.balanced)

only_alarms-alarms : (fs : List EnvFrame) → all_alarms fs ≡ true → alarms fs ≡ fs
unfolding all_alarms
only_alarms-alarms [] h = refl
only_alarms-alarms (f ∷ fs) h = elim (Bool-cases (is_alarm f)) [
  | inl alarm ↦ rw alarm (ap (λ t. f ∷ t) (only_alarms-alarms fs (rw alarm at h)))
  | inr normal ↦ absurd (bool_clash (rw normal at h))
]
  where
    bool_clash : false ≢ true
    bool_clash e = ground arith

Queue_push_try-alarms :
    (cap : ℕ) (fs : List EnvFrame) (f : EnvFrame)
    → (is_alarm f ≡ true → length (alarms fs) < cap)
    → alarms (Queue.push_try cap fs f).1 ≡ alarms fs ++ alarms (f ∷ [])
unfolding Queue.push_try
Queue_push_try-alarms cap fs f few = elim (Bool-cases (length fs == cap)) [
  | inr room ↦ rw room (alarms-append fs (f ∷ []))
  | inl full ↦ elim (Bool-cases (is_alarm f)) [
    | inr normal ↦ rw (full, normal) (sym (append-nil (alarms fs)))
    | inl alarm ↦ elim (Bool-cases (all_alarms fs)) [
      | inl all ↦
          let size : length fs ≡ cap = ground arith in
          absurd (omega (arith, few alarm, ap length (only_alarms-alarms fs all)))
      | inr some_normal ↦
          rw (full, alarm, some_normal)
            (rw alarm at (
              alarms-append (without_oldest_normal fs) (f ∷ [])
              ∙ ap (λ xs. xs ++ alarms (f ∷ [])) (alarms-without fs)))
    ]
  ]
]

-- A push keeps the alarms that the ring holds, and adds its frame to them if that is an alarm and the
-- ring holds fewer alarms than its capacity.
pub ring_push_try-alarms :
    (q : Ring) (f : EnvFrame)
    → IsValid q
    → (is_alarm f ≡ true → length (alarms (contents q)) < q.capacity)
    → Holds q.capacity (Queue.push_try q.capacity (contents q) f).1 (ring_push_try q f).1
      × (alarms (contents (ring_push_try q f).1) ≡ alarms (contents q) ++ alarms (f ∷ []))
ring_push_try-alarms q f v few =
    let held = (ring_push_try_refines q f v).1 in
    (held, ap alarms held.holds ∙ Queue_push_try-alarms q.capacity (contents q) f few)
