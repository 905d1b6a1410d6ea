-- ===== src/Pool/Tasks.antt =====
-- Tasks through the queue: what is submitted, what a worker calls, what `tp_destroy` frees.
use mathlib.Core.Path.{subst}
use native.Mathlib.Decide.{dec_lt}
use io_t_collector.Base.{
  ℕ, zero, suc, ◌+◌, ◌≤◌, ◌<◌, ◌≡◌, refl, sym, ap, ap₂, ◌∙◌, arith, min, true, Bool-cases, inl, inr,
  List, [], ◌∷◌, ◌++◌, append_assoc, tabulate, drop, take-append-drop, ltb, lt→ltb, ◌==◌,
  if◌then◌else◌, some,
}
use io_t_collector.Frame.{EnvFrame, frame_normal}
use io_t_collector.Ring.{Ring, take_batch, copy_out}
use io_t_collector.Ring.Inv.{IsValid, cell, contents}
use io_t_collector.Ring.Push.{Holds}
use io_t_collector.Ring.Pop.{take_batch_lem}
use io_t_collector.Pool.{tp_unpack_task}
use io_t_collector.Pool.System.{take_one, drain, given_back}

-- A frame taken by `take_one` is a batch of one.
one_taken :
    (q : Ring) → ltb 0 q.count ≡ true → take_batch q 1 ≡ ((take_one q).0 ∷ [], (take_one q).1)
unfolding take_batch take_one copy_out
one_taken q h = ground (arith, h)

one_less : (q : Ring) → IsValid q → 0 < q.count → (take_one q).1.count + 1 ≡ q.count
unfolding take_one
one_less q v some_left = omega (arith, v.count_in, v.pow.small)

-- From a valid ring that is not empty `take_one` takes the oldest frame.
pub take_one_lem :
    (q : Ring)
    → IsValid q
    → 0 < q.count
    → (contents q ≡ (take_one q).0 ∷ contents (take_one q).1)
      × IsValid (take_one q).1
      × ((take_one q).1.capacity ≡ q.capacity)
      × ((take_one q).1.count + 1 ≡ q.count)
take_one_lem q v some_left =
    let same = one_taken q (lt→ltb _ _ some_left) in
    let (out, held) = take_batch_lem q 1 v in
    let one : min q.count 1 ≡ 1 = omega arith in
    let left = subst (λ b. Holds q.capacity (drop (min q.count 1) (contents q)) b.1) same held in
    (
      sym (take-append-drop (min q.count 1) (contents q))
          ∙ ap₂ (λ xs ys. xs ++ ys) (sym out ∙ ap (λ b. b.0) same) (sym left.holds),
      left.valid,
      left.same_capacity,
      one_less q v some_left,
    )

-- The task records of the frames, in order; command frames hold none.
abbrev pub task_records : List EnvFrame → List ℕ
task_records [] = []
task_records (f ∷ fs) =
    let rest = task_records fs in
    if f.frame_type == frame_normal then given_back (tp_unpack_task f) ++ rest else rest

pub task_records-append :
    (xs ys : List EnvFrame) → task_records (xs ++ ys) ≡ task_records xs ++ task_records ys
task_records-append [] ys = refl
task_records-append (x ∷ xs) ys = elim (Bool-cases (x.frame_type == frame_normal)) [
  | inl task ↦ rw task (
      ap (λ t. given_back (tp_unpack_task x) ++ t) (task_records-append xs ys)
      ∙ sym (append_assoc (given_back (tp_unpack_task x)) (task_records xs) (task_records ys)))
  | inr command ↦ rw command (task_records-append xs ys)
]

drain_done : (n : ℕ) (q : Ring) → q.count ≡ 0 → drain n q ≡ some ([], q)
unfolding drain
drain_done zero q h = ground (arith, h)
drain_done (suc n) q h = ground (arith, h)

drain_more :
    (n : ℕ) (q : Ring) {ts : List ℕ} {r : Ring}
    → 0 < q.count
    → drain n (take_one q).1 ≡ some (ts, r)
    → drain (suc n) q
      ≡ some (
        if (take_one q).0.frame_type == frame_normal
            then given_back (tp_unpack_task (take_one q).0) ++ ts
            else ts,
        r,
      )
unfolding drain
drain_more n q h e = rw (lt→ltb _ _ h, e) refl

contents_nil : (q : Ring) → q.count ≡ 0 → contents q ≡ []
contents_nil q h = ap (λ n. tabulate n (cell q)) h

-- With fuel for every frame of a valid queue, `tp_destroy` empties it and frees exactly the task
-- records in it, in order.
pub drain_lem :
    (n : ℕ) (q : Ring)
    → IsValid q
    → q.count ≤ n
    → (r : Ring) × (drain n q ≡ some (task_records (contents q), r)) × IsValid r × (r.count ≡ 0)
drain_lem zero q v h =
    let nothing : q.count ≡ 0 = omega arith in
    (
      q,
      drain_done 0 q nothing ∙ ap (λ fs. some (task_records fs, q)) (sym (contents_nil q nothing)),
      v,
      nothing,
    )
drain_lem (suc n) q v h = elim (dec_lt 0 q.count) [
  | no nothing ↦
      let none_left : q.count ≡ 0 = omega (arith, nothing) in
      (
        q,
        drain_done (suc n) q none_left
            ∙ ap (λ fs. some (task_records fs, q)) (sym (contents_nil q none_left)),
        v,
        none_left,
      )
  | yes some_left ↦
      let (same, valid, cap, less) = take_one_lem q v some_left in
      let (r, e, ok, empty) = drain_lem n (take_one q).1 valid (omega arith) in
      (r, drain_more n q some_left e ∙ ap (λ fs. some (task_records fs, r)) (sym same), ok, empty)
]
