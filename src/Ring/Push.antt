-- ===== src/Ring/Push.antt =====
-- `ring_push_try` and `ring_push` against the queue of alarms and normal frames.
use io_t_collector.Base.{
  ℕ, ◌+◌, ◌<◌, ◌≡◌, inl, inr, refl, arith, true, false, Bool-cases, if◌then◌else◌, ◌==◌, List, [],
  ◌∷◌, ◌++◌,
}
use io_t_collector.Base.Words.{u32}
use io_t_collector.Status.{Status, ok, err_full}
use io_t_collector.Frame.{EnvFrame}
use io_t_collector.Ring.{Ring, is_alarm, drop_oldest_normal, write_head, ring_push_try}
use io_t_collector.Ring.Queue
use io_t_collector.Ring.Queue.{
  without_oldest_normal, all_alarms, push_room, push_normal, push_refused, push_squeezed,
}
use io_t_collector.Ring.Inv.{
  IsValid, contents, length-contents, write_head-IsValid, contents-write_head,
}
use io_t_collector.Ring.Drop.{Dropped, only_alarms, one_gone, drop_oldest_normal-Dropped}

fields-write_head :
    (q : Ring) (f : EnvFrame)
    → ((write_head q f).capacity ≡ q.capacity) × ((write_head q f).dropped ≡ q.dropped)
unfolding write_head
fields-write_head q f = (refl, refl)

-- What a push leaves: a valid ring of the same capacity that holds `fs`.
pub record Holds (cap : ℕ) (fs : List EnvFrame) (q : Ring) : Type 0 where
  pub valid : IsValid q
  pub same_capacity : q.capacity ≡ cap
  pub holds : contents q ≡ fs

pub write-Holds :
    (q : Ring) (f : EnvFrame)
    → IsValid q
    → q.count < q.capacity
    → Holds q.capacity (contents q ++ (f ∷ [])) (write_head q f)
write-Holds q f v room = record {
  valid = write_head-IsValid q f v room;
  same_capacity = (fields-write_head q f).0;
  holds = contents-write_head q f v room;
}

push_try_not_full :
    (q : Ring) (f : EnvFrame)
    → (q.count == q.capacity) ≡ false
    → ring_push_try q f ≡ (ok, write_head q f)
unfolding ring_push_try
push_try_not_full q f h = rw h

push_try_normal :
    (q : Ring) (f : EnvFrame)
    → (q.count == q.capacity) ≡ true
    → is_alarm f ≡ false
    → ring_push_try q f ≡ (err_full, record q { dropped = u32 (q.dropped + 1) })
unfolding ring_push_try
push_try_normal q f h n = rw (h, n)

push_try_alarm :
    (q : Ring) (f : EnvFrame)
    → (q.count == q.capacity) ≡ true
    → is_alarm f ≡ true
    → let q' = drop_oldest_normal q in
      ring_push_try q f
      ≡ (if q'.count == q'.capacity then (err_full, q') else (ok, write_head q' f))
unfolding ring_push_try
push_try_alarm q f h a = rw (h, a)

counted_drop :
    (q : Ring)
    → IsValid q
    → Holds q.capacity (contents q) (record q { dropped = u32 (q.dropped + 1) })
counted_drop q v = record {
  valid = record {
    pow = v.pow;
    storage = v.storage;
    tail_in = v.tail_in;
    count_in = v.count_in;
    head_at = v.head_at;
  };
  same_capacity = refl;
  holds = refl;
}

-- An alarm on a full ring, after the scan for a normal frame.
push_alarm_refines :
    (q q' : Ring) (f : EnvFrame)
    → IsValid q
    → (q.count == q.capacity) ≡ true
    → is_alarm f ≡ true
    → Dropped q q'
    → let (s, r) =
        if◌then◌else◌ {A = Status × Ring}
          (q'.count == q'.capacity)
          (err_full, q')
          (ok, write_head q' f) in
      let (s', fs) = Queue.push_try q.capacity (contents q) f in (s ≡ s') × Holds q.capacity fs r
push_alarm_refines q q' f v full alarm (only_alarms all same) =
    rw (same, full, push_refused q.capacity (contents q) f (rw (length-contents q) full) alarm all)
      (refl, record { valid = v; same_capacity = refl; holds = refl })
push_alarm_refines q q' f v full alarm (one_gone normal v' gone same_cap count dropped) =
    rw
      (
        room,
        push_squeezed q.capacity (contents q) f (rw (length-contents q) full) alarm normal,
        ← gone,
      )
      (refl, rw (← same_cap) (write-Holds q' f v' fits))
  where
    fits : q'.count < q'.capacity
    fits = ground (arith, v.count_in)

    room : (q'.count == q'.capacity) ≡ false
    room = ground arith

-- On a valid ring `ring_push_try` returns the status of the queue's push, and leaves a valid ring of
-- the same capacity with the frames of the queue after it.
pub ring_push_try_refines :
    (q : Ring) (f : EnvFrame)
    → IsValid q
    → let (s, q') = ring_push_try q f in
      let (s', fs) = Queue.push_try q.capacity (contents q) f in (s ≡ s') × Holds q.capacity fs q'
ring_push_try_refines q f v = elim (Bool-cases (q.count == q.capacity)) [
  | inr room ↦
      rw
        (
          push_try_not_full q f room,
          push_room q.capacity (contents q) f (rw (length-contents q) room),
        )
        (refl, write-Holds q f v (omega (arith, below room)))
  | inl full ↦ elim (Bool-cases (is_alarm f)) [
    | inr normal ↦
        rw
          (
            push_try_normal q f full normal,
            push_normal q.capacity (contents q) f (rw (length-contents q) full) normal,
          )
          (refl, counted_drop q v)
    | inl alarm ↦ rw (push_try_alarm q f full alarm) (
        push_alarm_refines q (drop_oldest_normal q) f v full alarm (drop_oldest_normal-Dropped q v))
  ]
]
  where
    below : (q.count == q.capacity) ≡ false → q.count < q.capacity
    below room = ground (arith, v.count_in)
