-- ===== src/Ring/Drop.antt =====
-- `drop_oldest_normal`: the frame that leaves and the ring that stays.
use native.Mathlib.Decide.{dec_lt}
use io_t_collector.Base.{
  ℕ, zero, suc, ◌+◌, ◌-◌, ◌%◌, ◌≤◌, ◌<◌, ◌≡◌, ◌≢◌, inl, inr, refl, sym, ap, ◌∙◌, arith, Bool, true,
  false, Bool-cases, if◌then◌else◌, ltb, List, ◌∷◌, length, get_or, set, tabulate, length-set,
  tabulate_ext, get_or-set_self, get_or-set_ne,
}
use io_t_collector.Base.Words.{u32, sub32}
use io_t_collector.Frame.{EnvFrame, zero_frame}
use io_t_collector.Ring.{Ring, is_alarm, masked, shift_down, drop_at, drop_from, drop_oldest_normal}
use io_t_collector.Ring.Queue.{without_oldest_normal, all_alarms}
use io_t_collector.Ring.Index.{pos_of_IsPow, mask_lem, pred_mask, offset_ne, back_offset}
use io_t_collector.Ring.Inv.{IsValid, cell, contents}

-- The frame `k` places behind the tail, in the storage `buf`.
abbrev cell_in : Ring → List EnvFrame → ℕ → EnvFrame
cell_in q buf k = get_or buf ((q.tail + k) % q.capacity) zero_frame

-- What a round at `j` and `n` rounds after it do to the cell `k`.
shift_cells :
    (old mid : ℕ → EnvFrame) (n j k : ℕ) (new : EnvFrame)
    → new ≡ (if ltb k (j + 1) then mid k else if ltb k (j + 1 + n) then mid (k + 1) else mid k)
    → mid j ≡ old (j + 1)
    → (j ≢ k → mid k ≡ old k)
    → ((j < k) × (k < j + suc n) → mid (k + 1) ≡ old (k + 1))
    → new ≡ (if ltb k j then old k else if ltb k (j + suc n) then old (k + 1) else old k)
shift_cells old mid n j k new later here other next = ground arith

module _ (q : Ring) (v : IsValid q) where
  slot_lem : (k : ℕ) → k ≤ q.capacity → masked q (u32 (q.tail + k)) ≡ (q.tail + k) % q.capacity
  slot_lem k h =
      mask_lem (u32 (q.tail + k)) v.pow
      ∙ let small : u32 (q.tail + k) ≡ q.tail + k = omega (arith, v.pow.small, v.tail_in) in
        ap (λ x. x % q.capacity) small

  next_slot_lem :
      (k : ℕ)
      → k < q.capacity
      → masked q (u32 (u32 (q.tail + k) + 1)) ≡ (q.tail + (k + 1)) % q.capacity
  next_slot_lem k h =
      mask_lem (u32 (u32 (q.tail + k) + 1)) v.pow
      ∙ let small : u32 (u32 (q.tail + k) + 1) ≡ q.tail + (k + 1) =
          omega (arith, v.pow.small, v.tail_in) in
        ap (λ x. x % q.capacity) small

  -- One round of the inner loop, in the terms of offsets.
  shift_round : ℕ → List EnvFrame → List EnvFrame
  shift_round j buf = set buf ((q.tail + j) % q.capacity) (cell_in q buf (j + 1))

  round_length : (j : ℕ) (buf : List EnvFrame) → length (shift_round j buf) ≡ length buf
  unfolding shift_round
  round_length j buf = length-set buf _ _

  shift_down_step :
      (n j : ℕ) (buf : List EnvFrame)
      → j < q.capacity
      → shift_down q (suc n) j buf ≡ shift_down q n (j + 1) (shift_round j buf)
  unfolding shift_down shift_round
  shift_down_step n j buf h = rw (slot_lem j (omega arith), next_slot_lem j h)

  length-shift_down : (n j : ℕ) (buf : List EnvFrame) → length (shift_down q n j buf) ≡ length buf
  unfolding shift_down
  length-shift_down zero j buf = refl
  length-shift_down (suc n) j buf = length-shift_down n (j + 1) _ ∙ length-set buf _ _

  round_here :
      (j : ℕ) (buf : List EnvFrame)
      → length buf ≡ q.capacity
      → j < q.capacity
      → cell_in q (shift_round j buf) j ≡ cell_in q buf (j + 1)
  unfolding shift_round
  round_here j buf len h =
      get_or-set_self buf ((q.tail + j) % q.capacity) (cell_in q buf (j + 1)) zero_frame
        (omega (arith, v.tail_in))

  round_else :
      (j k : ℕ) (buf : List EnvFrame)
      → j < q.capacity
      → k < q.capacity
      → j ≢ k
      → cell_in q (shift_round j buf) k ≡ cell_in q buf k
  unfolding shift_round
  round_else j k buf hj hk ne =
      get_or-set_ne buf ((q.tail + j) % q.capacity) ((q.tail + k) % q.capacity)
        (cell_in q buf (j + 1)) zero_frame (offset_ne q.tail q.capacity j k v.tail_in hj hk ne)

  shift_none :
      (buf : List EnvFrame) (j k : ℕ)
      → cell_in q (shift_down q 0 j buf) k ≡ (
          if ltb k j
          then cell_in q buf k
          else if ltb k (j + 0)
          then cell_in q buf (k + 1)
          else cell_in q buf k)
  unfolding shift_down
  shift_none buf j k = ground arith

  -- After `n` rounds from `j` the cells `j … j + n - 1` hold what followed them.
  shift_down_cell :
      (n j k : ℕ) (buf : List EnvFrame)
      → length buf ≡ q.capacity
      → j + n < q.capacity
      → k < q.capacity
      → cell_in q (shift_down q n j buf) k ≡ (
          if ltb k j
          then cell_in q buf k
          else if ltb k (j + n)
          then cell_in q buf (k + 1)
          else cell_in q buf k)
  shift_down_cell zero j k buf len h hk = shift_none buf j k
  shift_down_cell (suc n) j k buf len h hk =
      ap (λ b. cell_in q b k) (shift_down_step n j buf (omega arith))
      ∙ shift_cells (cell_in q buf) (cell_in q (shift_round j buf)) n j k
          (cell_in q (shift_down q n (j + 1) (shift_round j buf)) k)
          (shift_down_cell n (j + 1) k (shift_round j buf) (round_length j buf ∙ len) (omega arith)
            hk)
          (round_here j buf len (omega arith)) (round_else j k buf (omega arith) hk)
          (λ more. round_else j (k + 1) buf (omega arith) (omega arith) (omega arith))

  -- `drop_at` leaves out the cell `i`.
  module _ (i : ℕ) (found : i < q.count) where
    drop_at-IsValid : IsValid (drop_at q i)
    unfolding drop_at
    drop_at-IsValid = record {
      pow = v.pow;
      storage = length-shift_down (q.count - (i + 1)) i q.buf ∙ v.storage;
      tail_in = v.tail_in;
      count_in = omega (arith, v.count_in, v.pow.small);
      head_at =
          pred_mask q.head v.pow (omega (arith, v.head_at, pos_of_IsPow v.pow))
          ∙ let less : sub32 q.count 1 ≡ q.count - 1 = omega (arith, v.count_in, v.pow.small) in
            rw (less, v.head_at)
              (back_offset q.tail q.capacity q.count (pos_of_IsPow v.pow) (omega arith));
    }

    drop_at-count : (drop_at q i).count ≡ q.count - 1
    unfolding drop_at
    drop_at-count = omega (arith, v.count_in, v.pow.small)

    cell-drop_at :
        (k : ℕ)
        → k < q.count - 1
        → cell (drop_at q i) k ≡ (if ltb k i then cell q k else cell q (k + 1))
    unfolding drop_at
    cell-drop_at k h = ground (
      arith,
      v.count_in,
      shift_down_cell (q.count - (i + 1)) i k q.buf v.storage (omega (arith, v.count_in))
          (omega (arith, v.count_in)),
    )

-- The first of `n` cells that holds no alarm leaves the list of them.
without_tabulate :
    (n i : ℕ) (f : ℕ → EnvFrame)
    → i < n
    → ((k : ℕ) → k < i → is_alarm (f k) ≡ true)
    → is_alarm (f i) ≡ false
    → without_oldest_normal (tabulate n f)
      ≡ tabulate (n - 1) (λ k. if ltb k i then f k else f (k + 1))
unfolding without_oldest_normal
without_tabulate zero i f h before here = absurd (omega arith)
without_tabulate (suc n) zero f h before here = rw here (
    tabulate_ext n (λ k. f (suc k)) (λ k. if ltb k 0 then f k else f (k + 1)) (λ k b. ground arith)
    ∙ ap (λ m. tabulate m (λ k. if ltb k 0 then f k else f (k + 1))) less)
  where
    less : n ≡ suc n - 1
    less = omega arith
without_tabulate (suc zero) (suc i) f h before here = absurd (omega arith)
without_tabulate (suc (suc n)) (suc i) f h before here = rw (before 0 (omega arith)) (
    ap (λ t. f 0 ∷ t)
      (without_tabulate (suc n) i (λ k. f (suc k)) (omega arith)
          (λ k b. before (suc k) (omega arith)) here
        ∙ tabulate_ext (suc n - 1) _ (λ k. g (suc k)) (λ k b. ground arith))
    ∙ ap (λ m. f 0 ∷ tabulate m (λ k. g (suc k))) less
    ∙ ap (λ x. x ∷ tabulate n (λ k. g (suc k))) first
    ∙ ap (λ m. tabulate m g) more)
  where
    g : ℕ → EnvFrame
    g k = if ltb k (suc i) then f k else f (k + 1)

    first : f 0 ≡ g 0
    first = ground arith

    less : suc n - 1 ≡ n
    less = omega arith

    more : suc n ≡ suc (suc n) - 1
    more = omega arith

not_all_tabulate :
    (n i : ℕ) (f : ℕ → EnvFrame)
    → i < n
    → is_alarm (f i) ≡ false
    → all_alarms (tabulate n f) ≡ false
unfolding all_alarms
not_all_tabulate zero i f h here = absurd (omega arith)
not_all_tabulate (suc n) zero f h here = rw here
not_all_tabulate (suc n) (suc i) f h here =
    ground (arith, not_all_tabulate n i (λ k. f (suc k)) (omega arith) here)

all_tabulate :
    (n : ℕ) (f : ℕ → EnvFrame)
    → ((k : ℕ) → k < n → is_alarm (f k) ≡ true)
    → all_alarms (tabulate n f) ≡ true
unfolding all_alarms
all_tabulate zero f h = refl
all_tabulate (suc n) f h =
    rw (h 0 (omega arith)) (all_tabulate n (λ k. f (suc k)) (λ k b. h (suc k) (omega arith)))

-- What the scan of `drop_oldest_normal` comes to.
data Scanned (q : Ring) : Ring → Type 0 where
  found :
      (i : ℕ)
      → i < q.count
      → ((k : ℕ) → k < i → is_alarm (cell q k) ≡ true)
      → is_alarm (cell q i) ≡ false
      → Scanned q (drop_at q i)
  nothing : ((k : ℕ) → k < q.count → is_alarm (cell q k) ≡ true) → Scanned q q

alarm_upto :
    (i : ℕ) (p : ℕ → Bool)
    → ((k : ℕ) → k < i → p k ≡ true)
    → p i ≡ true
    → (k : ℕ) → k < i + 1
    → p k ≡ true
alarm_upto i p before here k h = elim (dec_lt k i) [
  | yes b ↦ before k b
  | no b ↦ let same : k ≡ i = omega arith in rw same here
]

module _ (q : Ring) (v : IsValid q) where
  drop_from-Scanned :
      (n i : ℕ)
      → i + n ≡ q.count
      → ((k : ℕ) → k < i → is_alarm (cell q k) ≡ true)
      → Scanned q (drop_from q n i)
  unfolding drop_from
  drop_from-Scanned zero i e before = nothing (λ k h. before k (omega arith))
  drop_from-Scanned (suc n) i e before =
      rw (slot_lem q v i (omega (arith, v.count_in))) (elim (Bool-cases (is_alarm (cell q i))) [
        | inl alarm ↦ rw alarm (
            drop_from-Scanned n (i + 1) (omega arith)
              (alarm_upto i (λ k. is_alarm (cell q k)) before alarm))
        | inr normal ↦ rw normal (found i (omega arith) before normal)
      ])

-- On a valid ring `drop_oldest_normal` either finds only alarms and changes nothing, or it takes the
-- oldest frame that is no alarm out of the contents.
pub data Dropped (q q' : Ring) : Type 0 where
  only_alarms : all_alarms (contents q) ≡ true → q' ≡ q → Dropped q q'
  one_gone :
      all_alarms (contents q) ≡ false
      → IsValid q'
      → contents q' ≡ without_oldest_normal (contents q)
      → q'.capacity ≡ q.capacity
      → q'.count + 1 ≡ q.count
      → q'.dropped ≡ u32 (q.dropped + 1)
      → Dropped q q'

fields-drop_at :
    (q : Ring) (i : ℕ)
    → ((drop_at q i).capacity ≡ q.capacity) × ((drop_at q i).dropped ≡ u32 (q.dropped + 1))
unfolding drop_at
fields-drop_at q i = (refl, refl)

Scanned-Dropped : (q : Ring) {q' : Ring} → IsValid q → Scanned q q' → Dropped q q'
Scanned-Dropped q v (nothing all) = only_alarms (all_tabulate q.count (cell q) all) refl
Scanned-Dropped q v (found i h before here) =
    one_gone (not_all_tabulate q.count i (cell q) h here) (drop_at-IsValid q v i h)
      (rw (drop_at-count q v i h)
          (tabulate_ext (q.count - 1) (cell (drop_at q i)) _ (cell-drop_at q v i h))
        ∙ sym (without_tabulate q.count i (cell q) h before here))
      (fields-drop_at q i).0 (omega (arith, drop_at-count q v i h)) (fields-drop_at q i).1

pub drop_oldest_normal-Dropped : (q : Ring) → IsValid q → Dropped q (drop_oldest_normal q)
unfolding drop_oldest_normal
drop_oldest_normal-Dropped q v =
    Scanned-Dropped q v
      (drop_from-Scanned q v q.count 0 (omega arith) (λ k h. absurd (omega arith)))
