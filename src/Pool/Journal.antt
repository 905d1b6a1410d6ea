-- ===== src/Pool/Journal.antt =====
-- The life of the tasks: submissions, commands and the turns of the workers in any order, and
-- `tp_destroy` at the end.
use io_t_collector.Base.{ℕ, ◌^◌, ◌<◌, ◌≡◌, ◌≢◌, List, [], ◌∷◌, ◌++◌, true}
use io_t_collector.Ring.{Ring, Wake, pushed, ring_push}
use io_t_collector.Ring.Inv.{IsValid, contents}
use io_t_collector.Pool.{tp_pack_task, command_frame}
use io_t_collector.Pool.Workers.{occurs}
use io_t_collector.Pool.System.{
  ThreadPool, SpawnAnswer, Act, went_on, left, act_on, take_one, leave,
}
use io_t_collector.Pool.Steps.{after_act}
use io_t_collector.Pool.Tasks.{task_records}

-- The pool, the task records submitted so far and those whose function a worker has called.
pub record Journal : Type 0 where
  pub tp : ThreadPool
  pub submitted : List ℕ
  pub called : List ℕ

abbrev called_by : Act → List ℕ
called_by (went_on ts tp) = ts
called_by (left tp) = []

-- A worker takes the oldest frame and acts on it.
unfoldable pub worked : Journal → ℕ → SpawnAnswer → Journal
worked l self answer =
    let (ef, q) = take_one l.tp.task_queue in
    let act = act_on (record l.tp { task_queue = q }) self ef answer in
    record l { tp = after_act act; called = l.called ++ called_by act }

-- A callback that finds the queue full is left out: it throws a task away.
pub data Move (l : Journal) : Journal → Type 0 where
  submits :
      (t : ℕ) (wakes : List Wake) (q : Ring)
      → t ≢ 0
      → t < 2 ^ 64
      → l.tp.task_queue.count < l.tp.task_queue.capacity
      → ring_push l.tp.task_queue (tp_pack_task t) wakes ≡ pushed q
      → Move l
          (record l { tp = record l.tp { task_queue = q }; submitted = l.submitted ++ (t ∷ []) })
  commands :
      (cmd : ℕ) (wakes : List Wake) (q : Ring)
      → l.tp.task_queue.count < l.tp.task_queue.capacity
      → ring_push l.tp.task_queue (command_frame cmd) wakes ≡ pushed q
      → Move l (record l { tp = record l.tp { task_queue = q } })
  takes :
      (self : ℕ) (answer : SpawnAnswer) → 0 < l.tp.task_queue.count → Move l (worked l self answer)
  leaves :
      (self : ℕ)
      → l.tp.shutdown ≡ true
      → occurs l.tp.workers self ≢ 0
      → Move l (record l { tp = leave l.tp self })

pub data Moves (l : Journal) : Journal → Type 0 where
  none_yet : Moves l l
  then_one : {m n : Journal} → Moves l m → Move m n → Moves l n

-- What `tp_destroy` meets under its lock: the pools at the wakes of its wait, until no worker is left.
pub data Waits : Journal → List ThreadPool → Journal → Type 0 where
  all_left : {l : Journal} → l.tp.worker_num ≡ 0 → Waits l [] l
  woken :
      {l m end : Journal} {wakes : List ThreadPool}
      → 0 < l.tp.worker_num
      → Moves l m
      → Waits m wakes end
      → Waits l (m.tp ∷ wakes) end

-- The first section of `tp_destroy`.
abbrev pub shutting : Journal → Journal
shutting l = record l { tp = record l.tp { shutdown = true } }

-- The queue is valid, and the submitted records are those called and then those queued.
pub record IsKept (l : Journal) : Type 0 where
  pub valid : IsValid l.tp.task_queue
  pub balanced : l.called ++ task_records (contents l.tp.task_queue) ≡ l.submitted
