-- ===== src/Ring/Inv.antt =====
-- The representation invariant of `ring_queue_t`, and the frames that a ring holds.
use native.Mathlib.Decide.{dec_lt}
use native.Mathlib.Nat.{one-le-pow, mod-eq_of_lt, le_refl}
use io_t_collector.Base.{
  ℕ, suc, ◌+◌, ◌-◌, ◌*◌, ◌%◌, ◌^◌, ◌≤◌, ◌<◌, ◌≡◌, ◌↔◌, refl, sym, ap, ap₂, replicate, ◌∙◌, arith,
  bit_and, true, List, [], ◌∷◌, ◌++◌, length, get_or, tabulate, length-set, length-replicate,
  length-tabulate, tabulate_ext, tabulate-snoc, get_or-set_self, get_or-set_ne,
}
use io_t_collector.Base.Words.{u32, sub32}
use io_t_collector.Base.Bits.{bit_and-pred_pow, pow_of_bit_and-pred}
use io_t_collector.Status.{done}
use io_t_collector.Frame.{EnvFrame, zero_frame}
use io_t_collector.Ring.{Ring, ring_init, write_head}
use io_t_collector.Ring.Index.{IsPow, pow_split, pos_of_IsPow, mask_lem, offset_ne, step_offset}

pub record IsValid (q : Ring) : Type 0 where
  pub pow : IsPow q.capacity
  pub storage : length q.buf ≡ q.capacity
  pub tail_in : q.tail < q.capacity
  pub count_in : q.count ≤ q.capacity
  pub head_at : q.head ≡ (q.tail + q.count) % q.capacity

-- The frame `i` places behind the oldest one.
abbrev pub cell : Ring → ℕ → EnvFrame
cell q i = get_or q.buf ((q.tail + i) % q.capacity) zero_frame

-- The frames held, the oldest first.
abbrev pub contents : Ring → List EnvFrame
contents q = tabulate q.count (cell q)

pub length-contents : (q : Ring) → length (contents q) ≡ q.count
length-contents q = length-tabulate q.count (cell q)

pow_small : (k : ℕ) → 2 ^ k < 2 ^ 32 → 2 ^ k ≤ 2 ^ 31
pow_small k h = elim (dec_lt 31 k) [
  | yes big ↦ absurd (grind (arith, pow_split 32 (k - 32) k (omega arith), one-le-pow (k - 32) 2))
  | no small ↦
      let split : 2 ^ k * 2 ^ (31 - k) ≡ 2 ^ 31 = pow_split k (31 - k) 31 (omega arith) in
      let pos : 1 ≤ 2 ^ (31 - k) = one-le-pow (31 - k) 2 (omega arith) in grind arith
]

pub init_test :
    (cap : ℕ) {q : Ring} → ring_init true cap ≡ done q → (0 < cap) × (bit_and cap (sub32 cap 1) ≡ 0)
unfolding ring_init
init_test cap e = ground arith

abbrev fresh : ℕ → Ring
fresh cap = record {
  buf = replicate cap zero_frame;
  capacity = cap;
  head = 0;
  tail = 0;
  count = 0;
  dropped = 0;
}

init_fresh :
    (cap : ℕ) → 0 < cap → bit_and cap (sub32 cap 1) ≡ 0 → ring_init true cap ≡ done (fresh cap)
unfolding ring_init
init_fresh cap pos e = ground arith

fresh-IsValid : (cap : ℕ) → IsPow cap → IsValid (fresh cap)
fresh-IsValid cap p =
    let pos : 0 < cap = pos_of_IsPow p in
    record {
      pow = p;
      storage = length-replicate cap zero_frame;
      tail_in = pos;
      count_in = omega arith;
      head_at = sym (mod-eq_of_lt pos);
    }

-- `ring_init` accepts a `uint32_t` capacity exactly if it is a power of two, and the ring that it
-- makes is valid, empty and of that capacity.
pub ring_init_iff :
    (cap : ℕ)
    → cap < 2 ^ 32
    → ((q : Ring) × (ring_init true cap ≡ done q)
        × IsValid q
        × (contents q ≡ [])
        × (q.capacity ≡ cap))
      ↔ ((k : ℕ) × (cap ≡ 2 ^ k))
ring_init_iff cap h = (
  (λ made.
      let test = init_test cap made.1 in
      let less : sub32 cap 1 ≡ cap - 1 = omega arith in
      pow_of_bit_and-pred cap cap (le_refl cap) test.0 (rw (← less) test.1)),
  (λ pow.
      let (k, e) = pow in
      let p : IsPow cap = record {
        order = k;
        power = e;
        small = rw e (pow_small k (rw (← e) h));
      } in
      let less : sub32 cap 1 ≡ cap - 1 = omega (arith, pos_of_IsPow p) in
      (
        fresh cap,
        init_fresh cap (pos_of_IsPow p) (rw less (rw e (bit_and-pred_pow k))),
        fresh-IsValid cap p,
        refl,
        refl,
      )),
)

-- What the last writes of a push do to a ring that is not full.
module _ (q : Ring) (f : EnvFrame) (v : IsValid q) (room : q.count < q.capacity) where
  head_in : q.head < q.capacity
  head_in = omega (arith, v.head_at, pos_of_IsPow v.pow)

  pub write_head-IsValid : IsValid (write_head q f)
  unfolding write_head
  write_head-IsValid = record {
    pow = v.pow;
    storage = length-set q.buf q.head f ∙ v.storage;
    tail_in = v.tail_in;
    count_in = omega (arith, v.pow.small);
    head_at =
        mask_lem (u32 (q.head + 1)) v.pow
        ∙ let small : u32 (q.head + 1) ≡ q.head + 1 = omega (arith, head_in, v.pow.small) in
          let next : u32 (q.count + 1) ≡ q.count + 1 = omega (arith, v.pow.small) in
          rw (small, next, v.head_at) (step_offset q.tail q.capacity q.count);
  }

  kept : (i : ℕ) → i < q.count → cell (write_head q f) i ≡ cell q i
  unfolding write_head
  kept i h = get_or-set_ne q.buf q.head ((q.tail + i) % q.capacity) f zero_frame (
      rw v.head_at
        (offset_ne q.tail q.capacity q.count i v.tail_in room (omega arith) (omega arith)))

  last : cell (write_head q f) q.count ≡ f
  unfolding write_head
  last =
      rw (← v.head_at)
        (get_or-set_self q.buf q.head f zero_frame (omega (arith, head_in, v.storage)))

  pub contents-write_head : contents (write_head q f) ≡ contents q ++ (f ∷ [])
  unfolding write_head
  contents-write_head =
      let next : u32 (q.count + 1) ≡ suc q.count = omega (arith, v.pow.small) in
      ap (λ n. tabulate n (cell (write_head q f))) next
      ∙ tabulate-snoc q.count (cell (write_head q f))
      ∙ ap₂ (λ xs x. xs ++ (x ∷ [])) (tabulate_ext q.count (cell (write_head q f)) (cell q) kept)
          last
