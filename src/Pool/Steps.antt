-- ===== src/Pool/Steps.antt =====
-- The threads of the pool as a step relation: a step is one critical section of one thread.
use io_t_collector.Base.{
  ℕ, ◌≤◌, ◌<◌, ◌≡◌, ◌≢◌, arith, true, false, Bool-cases, inl, inr, ltb→lt, [], ltb, ◌==◌,
  if◌then◌else◌,
}
use io_t_collector.Base.Words.{u8}
use io_t_collector.Frame.{EnvFrame, frame_normal, frame_alarm}
use io_t_collector.Ring.{Ring}
use io_t_collector.Pool.{pool_cmd_scale_up, pool_cmd_scale_down, tp_unlink_locked}
use io_t_collector.Pool.Workers.{IsPool, occurs, tp_spawn_locked-IsPool, tp_unlink_locked-IsPool}
use io_t_collector.Pool.System.{
  ThreadPool, SpawnAnswer, spawn, sample_water, Act, went_on, left, act_on, leave,
}

abbrev pub after_act : Act → ThreadPool
after_act (went_on ts tp) = tp
after_act (left tp) = tp

-- The threads that act as `self` are those in the list.
pub data Step (tp : ThreadPool) : ThreadPool → Type 0 where
  -- A push or the taking of a frame, under the ring's lock.
  queue : (q : Ring) → Step tp (record tp { task_queue = q })
  samples : (level : ℕ) → Step tp (sample_water tp level).1
  acts :
      (self : ℕ) (ef : EnvFrame) (answer : SpawnAnswer)
      → occurs tp.workers self ≢ 0
      → Step tp (after_act (act_on tp self ef answer))
  stops : Step tp (record tp { shutdown = true })
  leaves : (self : ℕ) → tp.shutdown ≡ true → occurs tp.workers self ≢ 0 → Step tp (leave tp self)

pub data Reach (tp : ThreadPool) : ThreadPool → Type 0 where
  here : Reach tp tp
  next : {t u : ThreadPool} → Reach tp t → Step t u → Reach tp u

-- The list is counted, and before the shutdown it does not fall below the minimum.
pub record IsSafe (tp : ThreadPool) : Type 0 where
  pub counted : IsPool tp.pool
  pub enough : tp.shutdown ≡ false → tp.g_min_workers ≤ tp.worker_num

module _ (tp : ThreadPool) (v : IsSafe tp) where
  samples-IsSafe : (level : ℕ) → IsSafe (sample_water tp level).1
  unfolding sample_water
  samples-IsSafe level = ground (arith, v.counted, v.enough)

  spawn-IsSafe : (answer : SpawnAnswer) → IsSafe (record tp { pool = (spawn tp.pool answer).1 })
  spawn-IsSafe answer =
      let (ok, n) =
        tp_spawn_locked-IsPool tp.pool answer.node answer.malloc_ok answer.create_ok v.counted in
      record { counted = ok; enough = λ on. grind (arith, n, v.enough on) }

  unlink-IsSafe :
      (self : ℕ)
      → tp.g_min_workers < tp.worker_num
      → occurs tp.workers self ≢ 0
      → IsSafe (record tp { pool = tp_unlink_locked tp.pool self })
  unfolding tp_unlink_locked
  unlink-IsSafe self over present = record {
    counted = tp_unlink_locked-IsPool tp.pool self v.counted present;
    enough = λ on. omega (arith, v.counted.limited, v.counted.fits);
  }

  scale_down-IsSafe :
      (self : ℕ)
      → occurs tp.workers self ≢ 0
      → IsSafe (
          after_act (
            if ltb tp.g_min_workers tp.worker_num
            then left (record tp { pool = tp_unlink_locked tp.pool self })
            else went_on [] tp))
  scale_down-IsSafe self present = elim (Bool-cases (ltb tp.g_min_workers tp.worker_num)) [
    | inl over ↦ rw over (unlink-IsSafe self (ltb→lt _ _ over) present)
    | inr few ↦ rw few v
  ]

  acts-IsSafe :
      (self : ℕ) (ef : EnvFrame) (answer : SpawnAnswer)
      → occurs tp.workers self ≢ 0
      → IsSafe (after_act (act_on tp self ef answer))
  unfolding act_on
  acts-IsSafe self ef answer present = elim (Bool-cases (ef.frame_type == frame_normal)) [
    | inl task ↦ rw task v
    | inr other ↦ elim (Bool-cases (ef.frame_type == frame_alarm)) [
      | inr none_such ↦ rw (other, none_such) v
      | inl command ↦ elim (Bool-cases (u8 ef.station_id == pool_cmd_scale_up)) [
        | inl up ↦ rw (other, command, up) (spawn-IsSafe answer)
        | inr not_up ↦ elim (Bool-cases (u8 ef.station_id == pool_cmd_scale_down)) [
          | inl down ↦ rw (other, command, not_up, down) (scale_down-IsSafe self present)
          | inr unknown ↦ rw (other, command, not_up, unknown) v
        ]
      ]
    ]
  ]

  leaves-IsSafe :
      (self : ℕ) → tp.shutdown ≡ true → occurs tp.workers self ≢ 0 → IsSafe (leave tp self)
  unfolding leave
  leaves-IsSafe self off present = record {
    counted = tp_unlink_locked-IsPool tp.pool self v.counted present;
    enough = λ on. cc;
  }

Step-IsSafe : {t u : ThreadPool} → Step t u → IsSafe t → IsSafe u
Step-IsSafe {t} (queue q) v = record { counted = v.counted; enough = v.enough }
Step-IsSafe {t} (samples level) v = samples-IsSafe t v level
Step-IsSafe {t} (acts self ef answer present) v = acts-IsSafe t v self ef answer present
Step-IsSafe {t} stops v = record { counted = v.counted; enough = λ on. cc }
Step-IsSafe {t} (leaves self off present) v = leaves-IsSafe t v self off present

-- Through any interleaving of the critical sections of the submitting threads, of the workers and of
-- the shutdown, the pool counts the workers in its list, never more than `max_workers`, and until the
-- shutdown it keeps at least `g_min_workers` if it started with that many.
pub Reach-IsSafe : {t u : ThreadPool} → IsSafe t → Reach t u → IsSafe u
Reach-IsSafe v here = v
Reach-IsSafe v (next r s) = Step-IsSafe s (Reach-IsSafe v r)
