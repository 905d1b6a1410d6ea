-- ===== src/Pool/Start.antt =====
-- `tp_init`: the pool that it makes.
use io_t_collector.Base.{
  ℕ, zero, suc, ◌+◌, ◌^◌, ◌≤◌, ◌<◌, ◌≡◌, ◌≢◌, refl, sym, ap, ◌∙◌, arith, Bool, true, false,
  Bool-cases, Option-cases, inl, inr, [], ltb, ◌==◌, if◌then◌else◌, none, some,
}
use mathlib.Core.Path.{subst}
use mathlib.Core.Option.{some-injective, none-ne-some}
use io_t_collector.Status.{done}
use io_t_collector.Ring.{Ring, ring_init}
use io_t_collector.Ring.Inv.{IsValid, contents, ring_init_iff, init_test}
use io_t_collector.Pool.{Pool, tp_spawn_locked}
use io_t_collector.Pool.Workers.{IsPool, tp_spawn_locked-IsPool}
use io_t_collector.Pool.System.{ThreadPool, SpawnAnswer, spawn, spawn_loop, tp_init}
use io_t_collector.Pool.Steps.{IsSafe}

-- `calloc`, `malloc` and `pthread_create` succeed.
pub record IsGranted (a : SpawnAnswer) : Type 0 where
  pub node_given : a.node ≢ 0
  pub malloc_done : a.malloc_ok ≡ true
  pub create_done : a.create_ok ≡ true

spawn_granted :
    (p : Pool) (a : SpawnAnswer) → IsGranted a → p.worker_num < p.max_workers → (spawn p a).0 ≡ true
unfolding tp_spawn_locked
spawn_granted p a g h = ground (arith, g.node_given, g.malloc_done, g.create_done)

spawn_max : (p : Pool) (a : SpawnAnswer) → (spawn p a).1.max_workers ≡ p.max_workers
unfolding tp_spawn_locked
spawn_max p a = ground arith

spawn-IsPool :
    (p : Pool) (a : SpawnAnswer)
    → IsPool p
    → IsPool (spawn p a).1
      × ((spawn p a).1.worker_num ≡ (if (spawn p a).0 then p.worker_num + 1 else p.worker_num))
spawn-IsPool p a v = tp_spawn_locked-IsPool p a.node a.malloc_ok a.create_ok v

module _ (p : Pool) (n i : ℕ) (answers : ℕ → SpawnAnswer) where
  loop_on :
      (spawn p (answers i)).0 ≡ true
      → spawn_loop p (suc n) i answers ≡ spawn_loop (spawn p (answers i)).1 n (i + 1) answers
  unfolding spawn_loop
  loop_on on = rw on

  -- A spawn that fails ends the loop with the workers that there are.
  loop_off :
      {p' : Pool}
      → (spawn p (answers i)).0 ≡ false
      → spawn_loop p (suc n) i answers ≡ some p'
      → ((spawn p (answers i)).1 ≡ p') × (p'.worker_num ≢ 0)
  unfolding spawn_loop
  loop_off off e = ground (arith, off, e)

-- With every answer granted the loop starts all the workers.
spawn_loop-granted :
    (n i : ℕ) (p : Pool) (answers : ℕ → SpawnAnswer)
    → IsPool p
    → ((j : ℕ) → IsGranted (answers j))
    → p.worker_num + n ≤ p.max_workers
    → (p' : Pool) × (spawn_loop p n i answers ≡ some p')
      × IsPool p'
      × (p'.worker_num ≡ p.worker_num + n)
unfolding spawn_loop
spawn_loop-granted zero i p answers v g h = (p, refl, v, omega arith)
spawn_loop-granted (suc n) i p answers v g h =
    let on = spawn_granted p (answers i) (g i) (omega arith) in
    let (v', count) = spawn-IsPool p (answers i) v in
    let grown : (spawn p (answers i)).1.worker_num ≡ p.worker_num + 1 =
      count ∙ ap (λ b. if b then p.worker_num + 1 else p.worker_num) on in
    let top = spawn_max p (answers i) in
    let (p', e, ok, all) =
      spawn_loop-granted n (i + 1) (spawn p (answers i)).1 answers v' g (omega arith) in
    (p', loop_on p n i answers on ∙ e, ok, omega arith)

-- What the loop gives when it does not give up.
spawn_loop_lem :
    (n i : ℕ) (p : Pool) (answers : ℕ → SpawnAnswer) {p' : Pool}
    → IsPool p
    → spawn_loop p n i answers ≡ some p'
    → IsPool p'
      × (n ≢ 0 → p'.worker_num ≢ 0)
      × (p.worker_num ≤ p'.worker_num)
      × (p'.worker_num ≤ p.worker_num + n)
unfolding spawn_loop
spawn_loop_lem zero i p answers v e =
    let same = some-injective p _ e in
    (
      subst IsPool same v,
      (λ h. absurd (h refl)),
      omega (arith, ap (λ x. x.worker_num) same),
      omega (arith, ap (λ x. x.worker_num) same),
    )
spawn_loop_lem (suc n) i p answers {p'} v e =
    let (v', count) = spawn-IsPool p (answers i) v in
    elim (Bool-cases (spawn p (answers i)).0) [
      | inr off ↦
          let (same, some_left) = loop_off p n i answers off e in
          let kept = count ∙ ap (λ b. if b then p.worker_num + 1 else p.worker_num) off in
          let last = ap (λ x. x.worker_num) same in
          (subst IsPool same v', (λ _. some_left), omega arith, omega arith)
      | inl on ↦
          let (ok, _, low, high) =
            spawn_loop_lem n (i + 1) (spawn p (answers i)).1 answers v'
              (sym (loop_on p n i answers on) ∙ e) in
          let grown = count ∙ ap (λ b. if b then p.worker_num + 1 else p.worker_num) on in
          (ok, (λ _. omega arith), omega arith, omega arith)
    ]

-- The arguments that `tp_init` accepts.
pub record IsAccepted (min_w max_w qcap : ℕ) : Type 0 where
  pub some_worker : 0 < min_w
  pub ordered : min_w ≤ max_w
  pub fits : max_w < 2 ^ 32
  pub cap_fits : qcap < 2 ^ 32
  pub order : ℕ
  pub power : qcap ≡ 2 ^ order

-- A new pool: its workers are counted, its queue is valid and empty.
pub record IsFresh (min_w qcap : ℕ) (tp : ThreadPool) : Type 0 where
  pub counted : IsPool tp.pool
  pub queue_valid : IsValid tp.task_queue
  pub queue_empty : contents tp.task_queue ≡ []
  pub queue_cap : tp.task_queue.capacity ≡ qcap
  pub runs : tp.shutdown ≡ false
  pub minimum : tp.g_min_workers ≡ min_w
  pub no_samples : tp.g_water_high_count ≡ 0

abbrev no_workers : ℕ → Pool
no_workers max_w = record { workers = []; worker_num = 0; max_workers = max_w }

no_workers-IsPool : (max_w : ℕ) → max_w < 2 ^ 32 → IsPool (no_workers max_w)
no_workers-IsPool max_w h = record { counted = refl; limited = omega arith; fits = h }

abbrev new_pool : Pool → Ring → ℕ → ThreadPool
new_pool p q min_w = record {
  pool = p;
  task_queue = q;
  shutdown = false;
  g_min_workers = min_w;
  g_water_high_count = 0;
}

init_accepted :
    (min_w max_w qcap : ℕ) (answers : ℕ → SpawnAnswer) {q : Ring} {p : Pool}
    → IsAccepted min_w max_w qcap
    → ring_init true qcap ≡ done q
    → spawn_loop (no_workers max_w) min_w 0 answers ≡ some p
    → tp_init min_w max_w qcap true true answers ≡ some (new_pool p q min_w)
unfolding tp_init
init_accepted min_w max_w qcap answers a made e =
    let (pos, one_bit) = init_test qcap made in
    let nonzero : (min_w == 0) ≡ false = ground (arith, a.some_worker) in
    let in_order : ltb max_w min_w ≡ false = ground (arith, a.ordered) in
    let some_room : (qcap == 0) ≡ false = ground (arith, pos) in
    rw (nonzero, in_order, some_room, one_bit, made, e)

-- If the arguments are accepted and every allocation and every `pthread_create` succeeds, `tp_init`
-- returns 0 with exactly `min_w` workers, an empty valid queue of capacity `qcap` and the
-- invariant of the running pool.
pub tp_init-IsSafe :
    (min_w max_w qcap : ℕ) (answers : ℕ → SpawnAnswer)
    → IsAccepted min_w max_w qcap
    → ((j : ℕ) → IsGranted (answers j))
    → (tp : ThreadPool) × (tp_init min_w max_w qcap true true answers ≡ some tp)
      × IsSafe tp
      × IsFresh min_w qcap tp
      × (tp.worker_num ≡ min_w)
unfolding tp_init
tp_init-IsSafe min_w max_w qcap answers a g =
    let (q, made, valid, nothing, cap) = (ring_init_iff qcap a.cap_fits).1 (a.order, a.power) in
    let (p, e, ok, all) =
      spawn_loop-granted min_w 0 (no_workers max_w) answers (no_workers-IsPool max_w a.fits) g
        (omega (arith, a.ordered)) in
    (
      new_pool p q min_w,
      init_accepted min_w max_w qcap answers a made e,
      record { counted = ok; enough = λ _. omega arith },
      record {
        counted = ok;
        queue_valid = valid;
        queue_empty = nothing;
        queue_cap = cap;
        runs = refl;
        minimum = refl;
        no_samples = refl;
      },
      omega arith,
    )

module _ (min_w max_w qcap : ℕ) (answers : ℕ → SpawnAnswer) where
  init_no_queue : (storage_ok : Bool) → tp_init min_w max_w qcap false storage_ok answers ≡ none
  unfolding tp_init
  init_no_queue storage_ok = ground arith

  init_no_storage : tp_init min_w max_w qcap true false answers ≡ none
  unfolding tp_init ring_init
  init_no_storage = ground arith

  init_no_worker :
      {q : Ring}
      → ring_init true qcap ≡ done q
      → spawn_loop (no_workers max_w) min_w 0 answers ≡ none
      → tp_init min_w max_w qcap true true answers ≡ none
  unfolding tp_init
  init_no_worker made e = ground (arith, made, e)

-- Whatever the allocations and `pthread_create` answer, a pool with accepted arguments for which
-- `tp_init` returns 0 has at least one and at most `min_w` workers, all of them counted, and an empty
-- valid queue of capacity `qcap`.
pub tp_init-IsFresh :
    (min_w max_w qcap : ℕ) (queue_ok storage_ok : Bool) (answers : ℕ → SpawnAnswer)
    {tp : ThreadPool}
    → IsAccepted min_w max_w qcap
    → tp_init min_w max_w qcap queue_ok storage_ok answers ≡ some tp
    → IsFresh min_w qcap tp × (1 ≤ tp.worker_num) × (tp.worker_num ≤ min_w)
tp_init-IsFresh min_w max_w qcap false storage_ok answers a e =
    absurd (none-ne-some _ (sym (init_no_queue min_w max_w qcap answers storage_ok) ∙ e))
tp_init-IsFresh min_w max_w qcap true false answers a e =
    absurd (none-ne-some _ (sym (init_no_storage min_w max_w qcap answers) ∙ e))
tp_init-IsFresh min_w max_w qcap true true answers {tp} a e =
    let (q, made, valid, nothing, cap) = (ring_init_iff qcap a.cap_fits).1 (a.order, a.power) in
    elim (Option-cases (spawn_loop (no_workers max_w) min_w 0 answers)) [
      | inl gave_up ↦
          absurd (none-ne-some _ (sym (init_no_worker min_w max_w qcap answers made gave_up) ∙ e))
      | inr (p, started) ↦
          let (ok, some_left, _, few) =
            spawn_loop_lem min_w 0 (no_workers max_w) answers (no_workers-IsPool max_w a.fits)
              started in
          subst (λ t. IsFresh min_w qcap t × (1 ≤ t.worker_num) × (t.worker_num ≤ min_w))
            (some-injective _ _ (sym (init_accepted min_w max_w qcap answers a made started) ∙ e))
            (
              record {
                counted = ok;
                queue_valid = valid;
                queue_empty = nothing;
                queue_cap = cap;
                runs = refl;
                minimum = refl;
                no_samples = refl;
              },
              omega (arith, some_left (omega (arith, a.some_worker))),
              omega (arith, few),
            )
    ]
