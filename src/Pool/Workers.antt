-- ===== src/Pool/Workers.antt =====
-- Task frames, and the count of the list of workers.
use io_t_collector.Base.{
  ℕ, suc, ◌+◌, ◌^◌, ◌≤◌, ◌<◌, ◌≡◌, ◌≢◌, refl, ap, arith, Bool, false, Bool-cases, inl, inr,
  if◌then◌else◌, ◌==◌, List, [], ◌∷◌, length,
}
use io_t_collector.Ring.{is_alarm}
use io_t_collector.Pool.{
  Pool, tp_pack_task, tp_unpack_task, tp_spawn_locked, unlink, tp_unlink_locked,
}

-- A 64-bit pointer packed into a task frame comes back unchanged, and the frame is no alarm.
pub tp_unpack_task-tp_pack_task :
    (t : ℕ)
    → t < 2 ^ 64
    → (tp_unpack_task (tp_pack_task t) ≡ t) × (is_alarm (tp_pack_task t) ≡ false)
unfolding tp_unpack_task tp_pack_task
tp_unpack_task-tp_pack_task t h = (omega arith, refl)

-- The pool counts the nodes of its list, no more than its limit, which is a `uint32_t`.
pub record IsPool (tp : Pool) : Type 0 where
  pub counted : tp.worker_num ≡ length tp.workers
  pub limited : tp.worker_num ≤ tp.max_workers
  pub fits : tp.max_workers < 2 ^ 32

-- How often a node stands in the list.
abbrev pub occurs : List ℕ → ℕ → ℕ
occurs [] self = 0
occurs (w ∷ ws) self = let rest = occurs ws self in if w == self then suc rest else rest

unlink-length :
    (ws : List ℕ) (self : ℕ) → occurs ws self ≢ 0 → suc (length (unlink ws self)) ≡ length ws
unfolding unlink
unlink-length [] self h = absurd (h refl)
unlink-length (w ∷ ws) self h = elim (Bool-cases (w == self)) [
  | inl found ↦ rw found refl
  | inr other ↦ rw other (ap suc (unlink-length ws self (rw other at h)))
]

-- Starting a worker keeps the pool's count right and within its limit, and adds exactly one worker if
-- it succeeds, none if it fails.
pub tp_spawn_locked-IsPool :
    (tp : Pool) (node : ℕ) (malloc_ok create_ok : Bool)
    → IsPool tp
    → let (started, tp') = tp_spawn_locked tp node malloc_ok create_ok in
      IsPool tp' × (tp'.worker_num ≡ (if started then tp.worker_num + 1 else tp.worker_num))
unfolding tp_spawn_locked
tp_spawn_locked-IsPool tp node malloc_ok create_ok v = (
  record {
    counted = ground (arith, v.counted, v.limited, v.fits);
    limited = ground (arith, v.counted, v.limited, v.fits);
    fits = ground (arith, v.fits);
  },
  ground (arith, v.counted, v.limited, v.fits),
)

-- Taking out a worker that is in the list keeps the pool's count right and within its limit.
pub tp_unlink_locked-IsPool :
    (tp : Pool) (self : ℕ)
    → IsPool tp
    → occurs tp.workers self ≢ 0
    → IsPool (tp_unlink_locked tp self)
unfolding tp_unlink_locked
tp_unlink_locked-IsPool tp self v present = record {
  counted = omega (arith, v.counted, v.limited, v.fits, unlink-length tp.workers self present);
  limited = omega (arith, v.counted, v.limited, v.fits, unlink-length tp.workers self present);
  fits = v.fits;
}
