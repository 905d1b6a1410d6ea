-- ===== src/Ring/Pop.antt =====
-- `ring_pop_batch`: the batch that it takes and the ring that it leaves.
use native.Mathlib.Nat.{mod-eq_of_lt, mod-add-mod}
use io_t_collector.Base.{
  ℕ, zero, suc, ◌+◌, ◌-◌, ◌%◌, ◌≤◌, ◌≡◌, ◌≢◌, refl, sym, ap, ap₂, ◌∙◌, arith, min, Bool,
  if◌then◌else◌, ltb, List, [], ◌∷◌, get_or, tabulate, tabulate_ext, take, drop, take-tabulate,
  drop-tabulate,
}
use io_t_collector.Base.Words.{u32, sub32}
use io_t_collector.Frame.{zero_frame}
use io_t_collector.Ring.{Ring, masked, copy_out, take_batch, ring_pop_batch, popped}
use io_t_collector.Ring.Index.{pos_of_IsPow, mask_lem, step_offset}
use io_t_collector.Ring.Inv.{IsValid, cell, contents}
use io_t_collector.Ring.Push.{Holds}

module _ (q : Ring) (v : IsValid q) where
  next_tail :
      (i : ℕ)
      → i ≤ q.capacity
      → masked q (u32 ((q.tail + i) % q.capacity + 1)) ≡ (q.tail + (i + 1)) % q.capacity
  next_tail i h =
      mask_lem (u32 ((q.tail + i) % q.capacity + 1)) v.pow
      ∙ let small : u32 ((q.tail + i) % q.capacity + 1) ≡ (q.tail + i) % q.capacity + 1 =
          omega (arith, pos_of_IsPow v.pow, v.pow.small) in
        ap (λ x. x % q.capacity) small ∙ step_offset q.tail q.capacity i

  -- The loop from the offset `i` copies the cells from there on.
  copy_out_lem :
      (n i : ℕ)
      → i + n ≤ q.capacity
      → copy_out q n ((q.tail + i) % q.capacity)
        ≡ (tabulate n (λ k. cell q (i + k)), (q.tail + (i + n)) % q.capacity)
  unfolding copy_out
  copy_out_lem zero i h = ap (λ t. ([], (q.tail + t) % q.capacity)) (omega arith)
  copy_out_lem (suc n) i h =
      rw (next_tail i (omega arith), copy_out_lem n (i + 1) (omega arith))
        (ap₂ (λ xs t. (xs, (q.tail + t) % q.capacity))
          (ap₂ (λ k ks. cell q k ∷ ks) (omega arith)
            (tabulate_ext n (λ k. cell q (i + 1 + k)) (λ k. cell q (i + suc k))
              (λ k h. ap (cell q) (omega arith))))
          (omega arith))

  copy_all :
      (n : ℕ)
      → n ≤ q.capacity
      → copy_out q n q.tail ≡ (tabulate n (cell q), (q.tail + n) % q.capacity)
  copy_all n h =
      ap (copy_out q n) start
      ∙ copy_out_lem n 0 (omega arith)
      ∙ ap₂ (λ xs t. (xs, (q.tail + t) % q.capacity))
          (tabulate_ext n (λ k. cell q (0 + k)) (cell q) (λ k b. ap (cell q) (omega arith)))
          (omega arith)
    where
      start : q.tail ≡ (q.tail + 0) % q.capacity
      start = sym (mod-eq_of_lt v.tail_in) ∙ ap (λ t. t % q.capacity) (omega arith)

  -- What is left after `n` cells were copied.
  abbrev after : ℕ → Ring
  after n = record q { tail = (q.tail + n) % q.capacity; count = q.count - n }

  take_batch-eq :
      (max_n : ℕ)
      → take_batch q max_n ≡ (tabulate (min q.count max_n) (cell q), after (min q.count max_n))
  unfolding take_batch
  take_batch-eq max_n = rw (size, copy_all (min q.count max_n) (omega (arith, v.count_in)), less)
    where
      size : (if ltb q.count max_n then q.count else max_n) ≡ min q.count max_n
      size = ground arith

      less : sub32 q.count (min q.count max_n) ≡ q.count - min q.count max_n
      less = omega (arith, v.count_in, v.pow.small)

  after-IsValid : (n : ℕ) → n ≤ q.count → IsValid (after n)
  after-IsValid n h = record {
    pow = v.pow;
    storage = v.storage;
    tail_in = omega (arith, pos_of_IsPow v.pow);
    count_in = omega (arith, v.count_in);
    head_at =
        v.head_at
        ∙ ap (λ t. t % q.capacity) (omega arith)
        ∙ sym (mod-add-mod (q.tail + n) q.capacity (q.count - n));
  }

  contents-after : (n : ℕ) → n ≤ q.count → contents (after n) ≡ drop n (contents q)
  contents-after n h =
      tabulate_ext (q.count - n) (cell (after n)) (λ k. cell q (n + k))
        (λ k b.
          ap (λ t. get_or q.buf t zero_frame)
            (mod-add-mod (q.tail + n) q.capacity k ∙ ap (λ t. t % q.capacity) (omega arith)))
      ∙ sym (drop-tabulate n q.count (cell q) h)

-- The batch that a consumer takes under the lock: the `min count max_n` oldest frames in order; the
-- ring stays valid and holds the others.
pub take_batch_lem :
    (q : Ring) (max_n : ℕ)
    → IsValid q
    → ((take_batch q max_n).0 ≡ take (min q.count max_n) (contents q))
      × Holds q.capacity (drop (min q.count max_n) (contents q)) (take_batch q max_n).1
take_batch_lem q max_n v =
    let n = min q.count max_n in
    (
      ap (λ t. t.0) (take_batch-eq q v max_n)
          ∙ sym (take-tabulate n q.count (cell q) (omega arith)),
      rw (take_batch-eq q v max_n) (record {
        valid = after-IsValid q v n (omega arith);
        same_capacity = refl;
        holds = contents-after q v n (omega arith);
      }),
    )

pop_now :
    (running : Bool) (q : Ring) (max_n : ℕ) (wakes : List (Ring × Bool))
    → q.count ≢ 0
    → ring_pop_batch running q max_n wakes ≡ popped (take_batch q max_n).0 (take_batch q max_n).1
unfolding ring_pop_batch
pop_now running q max_n [] h = ground arith
pop_now running q max_n ((r, running') ∷ wakes) h = ground arith

-- On a valid ring that is not empty `ring_pop_batch` returns at once with the `min count max_n`
-- oldest frames in order, and leaves a valid ring with the others.
pub ring_pop_batch_lem :
    (running : Bool) (q : Ring) (max_n : ℕ) (wakes : List (Ring × Bool))
    → IsValid q
    → q.count ≢ 0
    → (q' : Ring) × (ring_pop_batch running q max_n wakes
        ≡ popped (take (min q.count max_n) (contents q)) q')
      × Holds q.capacity (drop (min q.count max_n) (contents q)) q'
ring_pop_batch_lem running q max_n wakes v some_left =
    let (out, held) = take_batch_lem q max_n v in
    (
      (take_batch q max_n).1,
      pop_now running q max_n wakes some_left ∙ ap (λ fs. popped fs (take_batch q max_n).1) out,
      held,
    )
