-- ===== src/Tbf/Fetch.antt =====
-- `tbf_fetch_token`: how a request ends.
use io_t_collector.Base.{
  ℕ, ◌-◌, ◌^◌, ◌≤◌, ◌<◌, ◌≡◌, ◌≢◌, refl, ap, ◌∙◌, arith, Bool, true, false, if◌then◌else◌, leb,
  ◌==◌, Option, none, some, List, [], ◌∷◌, ◌++◌,
}
use io_t_collector.Base.Words.{sub64}
use io_t_collector.Status.{Status, ok, err_shutdown, err_timeout}
use io_t_collector.Tbf.{
  Tbf, tbf_shutdown, clamped, count_throttled, fetch_turn, Event, stop, apply, apply_all, Wait,
  FetchEnd, returned, pending, fetch_loop, tbf_fetch_token,
}
use io_t_collector.Tbf.Rate.{IsTbf, apply_all-rate}

turn_shut :
    (tbf : Tbf) (want : ℕ) (counted : Bool)
    → tbf.shutdown ≡ true
    → fetch_turn tbf want counted ≡ (some err_shutdown, tbf)
unfolding fetch_turn
turn_shut tbf want counted h = rw h

turn_granted :
    (tbf : Tbf) (want : ℕ) (counted : Bool)
    → tbf.shutdown ≡ false
    → want ≤ tbf.tokens
    → tbf.tokens < 2 ^ 64
    → fetch_turn tbf want counted ≡ (some ok, record tbf { tokens = tbf.tokens - want })
unfolding fetch_turn
turn_granted tbf want counted h enough small =
    let fits : leb want tbf.tokens ≡ true = ground arith in
    let less : sub64 tbf.tokens want ≡ tbf.tokens - want = omega arith in rw (h, fits, less)

turn_short :
    (tbf : Tbf) (want : ℕ) (counted : Bool)
    → tbf.shutdown ≡ false
    → tbf.tokens < want
    → fetch_turn tbf want counted ≡ (none, count_throttled tbf want counted)
unfolding fetch_turn
turn_short tbf want counted h short =
    let no : leb want tbf.tokens ≡ false = ground arith in rw (h, no)

abbrev after_turn : ℕ → Wait → List Wait → Option Status × Tbf → FetchEnd
after_turn want w ws p = elim p.0 [
  | some r ↦ returned r p.1
  | none ↦
      if w.timed_out
      then returned err_timeout (apply_all p.1 w.events)
      else fetch_loop (apply_all p.1 w.events) want true ws
]

loop_ends :
    (tbf next : Tbf) (want : ℕ) (counted : Bool) (ws : List Wait) (s : Status)
    → fetch_turn tbf want counted ≡ (some s, next)
    → fetch_loop tbf want counted ws ≡ returned s next
unfolding fetch_loop
loop_ends tbf next want counted [] s h =
    ap (λ p. elim p.0 as (λ o. FetchEnd) [ some r ↦ returned r p.1 | none ↦ pending p.1 ]) h
loop_ends tbf next want counted (w ∷ ws) s h = ap (after_turn want w ws) h

loop_waits :
    (tbf next : Tbf) (want : ℕ) (counted : Bool) (w : Wait) (ws : List Wait)
    → fetch_turn tbf want counted ≡ (none, next)
    → let woken = apply_all next w.events in
      fetch_loop tbf want counted (w ∷ ws)
      ≡ (if w.timed_out then returned err_timeout woken else fetch_loop woken want true ws)
unfolding fetch_loop
loop_waits tbf next want counted w ws h = ap (after_turn want w ws) h

fetch_starts :
    (tbf : Tbf) (want : ℕ) (ws : List Wait)
    → want ≢ 0
    → tbf_fetch_token tbf want ws ≡ fetch_loop tbf (clamped tbf want) false ws
unfolding tbf_fetch_token
fetch_starts tbf want ws h = let some_wanted : (want == 0) ≡ false = ground arith in rw some_wanted

-- A request of one byte or more, of any size, is granted at once by a full bucket that is not shut
-- down: it takes the bytes it asks for, or all of them if it asks for more than `burst`.
pub tbf_fetch_token-full :
    (tbf : Tbf) (want : ℕ) (ws : List Wait)
    → IsTbf tbf
    → tbf.tokens ≡ tbf.burst
    → tbf.shutdown ≡ false
    → want ≢ 0
    → tbf_fetch_token tbf want ws ≡ returned ok (record tbf { tokens = tbf.burst - want })
tbf_fetch_token-full tbf want ws v full open_ some_wanted =
    fetch_starts tbf want ws some_wanted
    ∙ loop_ends tbf (record tbf { tokens = tbf.tokens - clamped tbf want }) (clamped tbf want) false
        ws ok
        (turn_granted tbf (clamped tbf want) false open_ (ground arith) (omega (arith, v.burst_in)))
    ∙ ap (λ n. returned ok (record tbf { tokens = n })) (ground arith)

stop_lasts :
    (tbf : Tbf) (es later : List Event)
    → IsTbf tbf
    → (apply_all tbf (es ++ (stop ∷ later))).shutdown ≡ true
unfolding apply_all apply tbf_shutdown
stop_lasts tbf [] later v =
    (apply_all-rate (tbf_shutdown tbf) later
        (record { tokens_in = v.tokens_in; burst_in = v.burst_in })).2
      refl
stop_lasts tbf (e ∷ es) later v =
    stop_lasts (apply tbf e) es later (apply_all-rate tbf (e ∷ []) v).0

-- A request that has to wait returns `err_shutdown` at the next wake if the bucket was shut down during
-- the wait, whatever else happened in it, and takes no tokens.
pub tbf_fetch_token-shutdown :
    (tbf : Tbf) (want : ℕ) (es later : List Event) (ws : List Wait)
    → IsTbf tbf
    → tbf.shutdown ≡ false
    → tbf.tokens < clamped tbf want
    → let woken = apply_all (count_throttled tbf (clamped tbf want) false) (es ++ (stop ∷ later)) in
      tbf_fetch_token tbf want (record { events = es ++ (stop ∷ later); timed_out = false } ∷ ws)
      ≡ returned err_shutdown woken
tbf_fetch_token-shutdown tbf want es later ws v open_ short =
    fetch_starts tbf want _ (ground arith)
    ∙ loop_waits tbf (count_throttled tbf (clamped tbf want) false) (clamped tbf want) false _ ws
        (turn_short tbf (clamped tbf want) false open_ short)
    ∙ loop_ends _ _ (clamped tbf want) true ws err_shutdown (
        turn_shut _ (clamped tbf want) true
          (stop_lasts _ es later (record { tokens_in = v.tokens_in; burst_in = v.burst_in })))
