-- ===== src/Ring/Block.antt =====
-- `ring_push`, which waits for room.
use native.Mathlib.Decide.{ℕ_discrete}
use native.Mathlib.Nat.{mod-eq_of_lt, add-mod_right}
use io_t_collector.Base.{
  ℕ, ◌+◌, ◌%◌, ◌≡◌, ◌⊎◌, ◌<◌, inl, inr, sym, ap, ◌∙◌, arith, true, false, ◌==◌, List, [], ◌∷◌, ◌++◌,
  get_or-set_self,
}
use io_t_collector.Frame.{EnvFrame, zero_frame}
use io_t_collector.Ring.{
  Ring, is_alarm, drop_oldest_normal, write_head, ring_push, Wake, woken, wait_failed, pushed,
}
use io_t_collector.Ring.Queue.{all_alarms}
use io_t_collector.Ring.Inv.{IsValid, cell, contents}
use io_t_collector.Ring.Drop.{Dropped, only_alarms, one_gone, drop_oldest_normal-Dropped}
use io_t_collector.Ring.Push.{Holds, write-Holds}

pub pushed-injective : {q r : Ring} → pushed q ≡ pushed r → q ≡ r
pushed-injective e = cc

-- The ring that a caller of `ring_push` met last: the first of `q` and the rings at the wakes that
-- was not full.
pub data FirstRoom : Ring → List Wake → Ring → Type 0 where
  at_once : {q : Ring} {ws : List Wake} → q.count < q.capacity → FirstRoom q ws q
  at_wake :
      {q q' r : Ring} {ws : List Wake}
      → q.count ≡ q.capacity
      → FirstRoom q' ws r
      → FirstRoom q (woken q' ∷ ws) r

abbrev pub AllValid : List Wake → Type 0
AllValid [] = Unit
AllValid (woken q ∷ ws) = IsValid q × AllValid ws
AllValid (wait_failed q ∷ ws) = AllValid ws

-- Fullness of a valid ring, decided by the code's test.
full-cases : (q : Ring) → IsValid q → (q.count ≡ q.capacity) ⊎ (q.count < q.capacity)
full-cases q v = elim (ℕ_discrete q.count q.capacity) [
  | yes e ↦ inl e
  | no ne ↦ inr (omega (arith, v.count_in))
]

eq-true : (a b : ℕ) → a ≡ b → (a == b) ≡ true
eq-true a b e = ground arith

lt-false : (a b : ℕ) → a < b → (a == b) ≡ false
lt-false a b h = ground arith

pub push_room :
    (q : Ring) (f : EnvFrame) (ws : List Wake)
    → q.count < q.capacity
    → ring_push q f ws ≡ pushed (write_head q f)
unfolding ring_push
push_room q f [] h = rw (lt-false q.count q.capacity h)
push_room q f (woken q' ∷ ws) h = rw (lt-false q.count q.capacity h)
push_room q f (wait_failed q' ∷ ws) h = rw (lt-false q.count q.capacity h)

push_full_end :
    (q : Ring) (f : EnvFrame) {r : Ring}
    → q.count ≡ q.capacity
    → is_alarm f ≡ false
    → ¬ (ring_push q f [] ≡ pushed r)
unfolding ring_push
push_full_end q f h n e = ground arith

push_full_failed :
    (q q' : Ring) (f : EnvFrame) (ws : List Wake) {r : Ring}
    → q.count ≡ q.capacity
    → is_alarm f ≡ false
    → ¬ (ring_push q f (wait_failed q' ∷ ws) ≡ pushed r)
unfolding ring_push
push_full_failed q q' f ws h n e = ground arith

push_full_woken :
    (q q' : Ring) (f : EnvFrame) (ws : List Wake)
    → q.count ≡ q.capacity
    → is_alarm f ≡ false
    → ring_push q f (woken q' ∷ ws) ≡ ring_push q' f ws
unfolding ring_push
push_full_woken q q' f ws h n = rw (eq-true q.count q.capacity h, n)

pub push_full_alarm :
    (q : Ring) (f : EnvFrame) (ws : List Wake)
    → q.count ≡ q.capacity
    → is_alarm f ≡ true
    → ring_push q f ws ≡ pushed (write_head (drop_oldest_normal q) f)
unfolding ring_push
push_full_alarm q f [] h a = rw (eq-true q.count q.capacity h, a)
push_full_alarm q f (woken q' ∷ ws) h a = rw (eq-true q.count q.capacity h, a)
push_full_alarm q f (wait_failed q' ∷ ws) h a = rw (eq-true q.count q.capacity h, a)

roomy :
    (q : Ring) (f : EnvFrame) (ws : List Wake) {r : Ring}
    → IsValid q
    → q.count < q.capacity
    → ring_push q f ws ≡ pushed r
    → (q' : Ring) × FirstRoom q ws q' × Holds q'.capacity (contents q' ++ (f ∷ [])) r
roomy q f ws {r} v room e =
    let same : write_head q f ≡ r = pushed-injective (sym (push_room q f ws room) ∙ e) in
    (q, at_once room, rw (← same) (write-Holds q f v room))

-- `ring_push` of a frame that is no alarm, when it returns 0: no frame was lost, the frame stands
-- behind those of the first ring that had room, and that ring stays valid.
pub ring_push-FirstRoom :
    (q : Ring) (f : EnvFrame) (ws : List Wake) {r : Ring}
    → IsValid q
    → AllValid ws
    → is_alarm f ≡ false
    → ring_push q f ws ≡ pushed r
    → (q' : Ring) × FirstRoom q ws q' × Holds q'.capacity (contents q' ++ (f ∷ [])) r
ring_push-FirstRoom q f [] v vs normal e = elim (full-cases q v) [
  | inl full ↦ absurd (push_full_end q f full normal e)
  | inr room ↦ roomy q f [] v room e
]
ring_push-FirstRoom q f (wait_failed q' ∷ ws) v vs normal e = elim (full-cases q v) [
  | inl full ↦ absurd (push_full_failed q q' f ws full normal e)
  | inr room ↦ roomy q f (wait_failed q' ∷ ws) v room e
]
ring_push-FirstRoom q f (woken q' ∷ ws) v vs normal e = elim (full-cases q v) [
  | inl full ↦
      let (q0, first, h) =
        ring_push-FirstRoom q' f ws vs.0 vs.1 normal
          (sym (push_full_woken q q' f ws full normal) ∙ e) in
      (q0, at_wake full first, h)
  | inr room ↦ roomy q f (woken q' ∷ ws) v room e
]

scan_idle : (q : Ring) → IsValid q → all_alarms (contents q) ≡ true → drop_oldest_normal q ≡ q
scan_idle q v all = idle (drop_oldest_normal-Dropped q v)
  where
    idle : Dropped q (drop_oldest_normal q) → drop_oldest_normal q ≡ q
    idle (only_alarms _ same) = same
    idle (one_gone normal _ _ _ _ _) = cc

over :
    (q : Ring) (f : EnvFrame)
    → IsValid q
    → q.count ≡ q.capacity
    → (write_head q f).count ≡ q.capacity + 1
unfolding write_head
over q f v full = omega (arith, v.pow.small)

too_many : (q : Ring) (f : EnvFrame) → IsValid q → q.count ≡ q.capacity → ¬ IsValid (write_head q f)
unfolding write_head
too_many q f v full w = omega (arith, w.count_in, v.pow.small)

newest_first :
    (q : Ring) (f : EnvFrame) → IsValid q → q.count ≡ q.capacity → cell (write_head q f) 0 ≡ f
unfolding write_head
newest_first q f v full =
    rw (sym at_tail)
      (get_or-set_self q.buf q.head f zero_frame (omega (arith, v.tail_in, v.storage, at_head)))
  where
    at_head : q.head ≡ q.tail
    at_head = v.head_at ∙ rw full (add-mod_right q.tail q.capacity ∙ mod-eq_of_lt v.tail_in)

    at_tail : q.head ≡ (q.tail + 0) % q.capacity
    at_tail = at_head ∙ sym (mod-eq_of_lt v.tail_in) ∙ ap (λ t. t % q.capacity) (omega arith)

-- A defect: an alarm that `ring_push` brings to a valid ring full of alarms is written over the
-- oldest one, and the ring then counts one frame more than its capacity and is no longer valid.
pub ring_push_overflow :
    (q : Ring) (f : EnvFrame) (ws : List Wake)
    → IsValid q
    → q.count ≡ q.capacity
    → all_alarms (contents q) ≡ true
    → is_alarm f ≡ true
    → (ring_push q f ws ≡ pushed (write_head q f))
      × ((write_head q f).count ≡ q.capacity + 1)
      × (cell (write_head q f) 0 ≡ f)
      × (¬ IsValid (write_head q f))
ring_push_overflow q f ws v full all alarm = (
  push_full_alarm q f ws full alarm ∙ ap (λ r. pushed (write_head r f)) (scan_idle q v all),
  over q f v full,
  newest_first q f v full,
  λ w. too_many q f v full w,
)
