-- ===== src/Cleaner/Oldest.antt =====
-- The search of the reorder buffer for the oldest frame.
use native.Mathlib.Decide.{ℕ_discrete}
use io_t_collector.Base.{
  ℕ, zero, suc, ◌+◌, ◌<◌, ◌≡◌, arith, true, false, Bool-cases, inl, inr, if◌then◌else◌, ltb, ◌==◌,
  ◌&&◌, ◌||◌, List, get_or,
}
use io_t_collector.Frame.{EnvFrame, zero_frame}
use io_t_collector.Cleaner.{InternalCtx, min_idx_loop, earlier}

not_earlier_trans :
    (a a' b b' c c' : ℕ)
    → (ltb a b || (a == b && ltb a' b')) ≡ false
    → (ltb c b || (c == b && ltb c' b')) ≡ true
    → (ltb a c || (a == c && ltb a' c')) ≡ false
not_earlier_trans a a' b b' c c' h k = ground arith

not_earlier_self : (a a' : ℕ) → (ltb a a || (a == a && ltb a' a')) ≡ false
not_earlier_self a a' = ground arith

no_chain : (f g h : EnvFrame) → earlier f g ≡ false → earlier h g ≡ true → earlier f h ≡ false
no_chain f g h e k =
    not_earlier_trans f.timestamp_sec f.timestamp_ms g.timestamp_sec g.timestamp_ms h.timestamp_sec
      h.timestamp_ms e k

not_self : (f : EnvFrame) → earlier f f ≡ false
not_self f = not_earlier_self f.timestamp_sec f.timestamp_ms

module _ (buf : List EnvFrame) where
  abbrev at : ℕ → EnvFrame
  at i = get_or buf i zero_frame

  abbrev FirstOf : ℕ → ℕ → Type 0
  FirstOf n m = (m < n) × ((j : ℕ) → j < n → earlier (at j) (at m) ≡ false)

  next-FirstOf : (i m : ℕ) → FirstOf i m → FirstOf (suc i) (if earlier (at i) (at m) then i else m)
  next-FirstOf i m (m_in, none_earlier) = elim (Bool-cases (earlier (at i) (at m))) [
    | inl first ↦ rw first (
      omega arith,
      λ j j_in. elim (ℕ_discrete j i) [
        | yes same ↦ rw same (not_self (at i))
        | no other ↦ no_chain (at j) (at m) (at i) (none_earlier j (omega arith)) first
      ],
    )
    | inr later ↦ rw later (
      omega arith,
      λ j j_in. elim (ℕ_discrete j i) [
        | yes same ↦ rw same later
        | no other ↦ none_earlier j (omega arith)
      ],
    )
  ]

  loop-FirstOf : (n i m : ℕ) → FirstOf i m → FirstOf (i + n) (min_idx_loop n buf i m)
  unfolding min_idx_loop
  loop-FirstOf zero i m h = let same : i ≡ i + 0 = omega arith in rw (← same) h
  loop-FirstOf (suc n) i m h =
      let same : suc i + n ≡ i + suc n = omega arith in
      let one : i + 1 ≡ suc i = omega arith in
      rw (← same, one) (loop-FirstOf n (suc i) _ (next-FirstOf i m h))

-- The search gives an index of the five frames of the buffer whose frame none of them is earlier than.
pub min_idx_loop_lem :
    (ctx : InternalCtx)
    → let m = min_idx_loop 4 ctx.reorder_buf 1 0 in
      (m < 5)
      × ((j : ℕ)
          → j < 5
          → earlier (get_or ctx.reorder_buf j zero_frame) (get_or ctx.reorder_buf m zero_frame)
            ≡ false)
min_idx_loop_lem ctx = loop-FirstOf ctx.reorder_buf 4 1 0 (
  omega arith,
  λ j h.
      let first : j ≡ 0 = omega arith in rw first (not_self (get_or ctx.reorder_buf 0 zero_frame)),
)
