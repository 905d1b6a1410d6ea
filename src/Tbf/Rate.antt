-- ===== src/Tbf/Rate.antt =====
-- What the bucket lets through: the tokens granted over any run of critical sections.
use io_t_collector.Base.{
  ℕ, ◌+◌, ◌*◌, ◌/◌, ◌^◌, ◌≤◌, ◌<◌, ◌≡◌, refl, ap, arith, min, Bool, true, Bool-cases, inl, inr,
  if◌then◌else◌, ltb, ◌==◌, Option, none, some, List, [], ◌∷◌,
}
use io_t_collector.Base.Words.{u64}
use io_t_collector.Status.{Status, is_ok, done}
use io_t_collector.Tbf.{
  Tbf, System, tbf_init, tbf_tick, tbf_shutdown, clamped, fetch_turn, Event, tick, stop, turn,
  apply, apply_all,
}

-- The bucket holds no more than `burst`, and its limits fit 64 bits.
pub record IsTbf (tbf : Tbf) : Type 0 where
  pub tokens_in : tbf.tokens ≤ tbf.burst
  pub burst_in : tbf.burst < 2 ^ 64

-- What a turn of a request that comes to `rc` grants: the whole request if that is `IOT_OK`.
abbrev pub granted_by : Option Status → ℕ → ℕ
granted_by none want = 0
granted_by (some s) want = if is_ok s then want else 0

-- The tokens that the callers are granted in an event, and those that the event may put in.
abbrev pub granted : Tbf → Event → ℕ
granted tbf (tick elapsed_ms) = 0
granted tbf stop = 0
granted tbf (turn want counted) =
    granted_by (fetch_turn tbf (clamped tbf want) counted).0 (clamped tbf want)

abbrev pub refill : ℕ → Event → ℕ
refill cps (tick elapsed_ms) = cps * min elapsed_ms 60000 / 1000
refill cps stop = 0
refill cps (turn want counted) = 0

abbrev pub granted_all : Tbf → List Event → ℕ
granted_all tbf [] = 0
granted_all tbf (e ∷ es) = granted tbf e + granted_all (apply tbf e) es

abbrev pub refill_all : ℕ → List Event → ℕ
refill_all cps [] = 0
refill_all cps (e ∷ es) = refill cps e + refill_all cps es

-- What an event does to the bucket.
record Applied (tbf : Tbf) (e : Event) (tbf' : Tbf) : Type 0 where
  valid : IsTbf tbf'
  same_cps : tbf'.cps ≡ tbf.cps
  same_burst : tbf'.burst ≡ tbf.burst
  balance : tbf'.tokens + granted tbf e ≤ tbf.tokens + refill tbf.cps e
  still_shut : tbf.shutdown ≡ true → tbf'.shutdown ≡ true

capped : (ms : ℕ) → (if ltb 60000 ms then 60000 else ms) ≡ min ms 60000
capped ms = ground arith

refilled : Tbf → ℕ → Tbf
refilled tbf add = record tbf {
  tokens = if ltb tbf.burst (u64 (tbf.tokens + add)) then tbf.burst else u64 (tbf.tokens + add);
}

-- `x` is the product before its wrap-around.
refilled-Applied :
    (tbf : Tbf) (ms x : ℕ)
    → IsTbf tbf
    → x ≡ tbf.cps * min ms 60000
    → Applied tbf (tick ms) (refilled tbf (u64 x / 1000))
unfolding refilled
refilled-Applied tbf ms x v same = record {
  valid = record { tokens_in = ground arith; burst_in = v.burst_in };
  same_cps = refl;
  same_burst = refl;
  balance =
      let no_more : u64 x / 1000 ≤ x / 1000 = omega arith in rw (← same) (ground (arith, no_more));
  still_shut = λ h. h;
}

tick-Applied : (tbf : Tbf) (ms : ℕ) → IsTbf tbf → Applied tbf (tick ms) (tbf_tick tbf ms)
unfolding tbf_tick refilled
tick-Applied tbf ms v = elim (Bool-cases (ms == 0)) [
  | inl none_elapsed ↦ rw none_elapsed (record {
    valid = v;
    same_cps = refl;
    same_burst = refl;
    balance = omega arith;
    still_shut = λ h. h;
  })
  | inr some_elapsed ↦ rw some_elapsed (
      refilled-Applied tbf ms (tbf.cps * (if ltb 60000 ms then 60000 else ms)) v
        (ap (λ n. tbf.cps * n) (capped ms)))
]

turn-Applied :
    (tbf : Tbf) (want : ℕ) (counted : Bool)
    → IsTbf tbf
    → Applied tbf (turn want counted) (fetch_turn tbf (clamped tbf want) counted).1
unfolding fetch_turn
turn-Applied tbf want counted v = record {
  valid = record {
    tokens_in = ground (arith, v.tokens_in, v.burst_in);
    burst_in = ground (arith, v.burst_in);
  };
  same_cps = ground arith;
  same_burst = ground arith;
  balance = ground (arith, v.tokens_in, v.burst_in);
  still_shut = λ h. ground arith;
}

apply-Applied : (tbf : Tbf) (e : Event) → IsTbf tbf → Applied tbf e (apply tbf e)
unfolding apply tbf_shutdown
apply-Applied tbf (tick ms) v = tick-Applied tbf ms v
apply-Applied tbf stop v = record {
  valid = record { tokens_in = v.tokens_in; burst_in = v.burst_in };
  same_cps = refl;
  same_burst = refl;
  balance = omega arith;
  still_shut = λ h. refl;
}
apply-Applied tbf (turn want counted) v = turn-Applied tbf want counted v

-- From a bucket that holds no more than `burst`, any run of ticks, requests and shutdowns leaves such a
-- bucket, a shutdown lasts, and the tokens granted in the run are at most the tokens held at its start
-- and what its ticks put in.
pub apply_all-rate :
    (tbf : Tbf) (es : List Event)
    → IsTbf tbf
    → IsTbf (apply_all tbf es)
      × ((apply_all tbf es).tokens + granted_all tbf es ≤ tbf.tokens + refill_all tbf.cps es)
      × (tbf.shutdown ≡ true → (apply_all tbf es).shutdown ≡ true)
unfolding apply_all
apply_all-rate tbf [] v = (v, omega arith, λ h. h)
apply_all-rate tbf (e ∷ es) v =
    let a = apply-Applied tbf e v in
    let (valid, rate, shut) = apply_all-rate (apply tbf e) es a.valid in
    (
      valid,
      omega (arith, a.balance, rate, ap (λ cps. refill_all cps es) a.same_cps),
      λ h. shut (a.still_shut h),
    )

made_full :
    (sys : System) (cps burst : ℕ) (tbf : Tbf)
    → tbf_init sys cps burst ≡ done tbf
    → (tbf.tokens ≡ burst) × (tbf.burst ≡ burst) × (tbf.cps ≡ cps)
unfolding tbf_init
made_full sys cps burst tbf made = ground arith

-- A bucket that `tbf_init` makes grants at most `burst` bytes more than its ticks put in, whatever the
-- order of ticks, requests and shutdowns.
pub tbf_init-rate :
    (sys : System) (cps burst : ℕ) (tbf : Tbf) (es : List Event)
    → burst < 2 ^ 64
    → tbf_init sys cps burst ≡ done tbf
    → granted_all tbf es ≤ burst + refill_all cps es
tbf_init-rate sys cps burst tbf es h made =
    let (tokens, full, same_cps) = made_full sys cps burst tbf made in
    let (valid, rate, shut) =
      apply_all-rate tbf es (record { tokens_in = omega arith; burst_in = omega arith }) in
    omega (arith, rate, ap (λ c. refill_all c es) same_cps)
