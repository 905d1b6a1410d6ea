-- ===== src/Ingress/Retry.antt =====
-- The pauses between the sessions of ingress/tcp_poller.c.
use io_t_collector.Base.{
  ℕ, zero, suc, ◌+◌, ◌*◌, ◌≤◌, ◌<◌, ◌≡◌, refl, ap, ap₂, ◌∙◌, arith, min, Bool, true, false, List,
  ◌∷◌, ◌++◌, replicate, tabulate, tabulate_ext,
}
use io_t_collector.Ingress.Tcp.{backoff, tcp_poll_thread, sleep_slices, backoff_sleep_ms}

-- After `fails` failures, `n` more in a row are followed by pauses of one second more each time, up to
-- five seconds.
failing :
    (poll_ms fails n : ℕ)
    → tcp_poll_thread poll_ms fails (replicate n false)
      ≡ tabulate n (λ i. min (fails + i + 1) 5 * 1000)
unfolding tcp_poll_thread backoff
failing poll_ms fails zero = refl
failing poll_ms fails (suc n) =
    ap₂ (λ p ps. p ∷ ps) (ground arith)
      (failing poll_ms (fails + 1) n
        ∙ tabulate_ext n (λ i. min (fails + 1 + i + 1) 5 * 1000)
            (λ i. min (fails + suc i + 1) 5 * 1000) (λ i h. ap (λ k. min k 5 * 1000) (omega arith)))

-- Whatever failed before, behind a session that succeeded and with a polling interval that is not 0,
-- `n` failures in a row are followed by pauses of 1, 2, 3, 4 and then always 5 seconds.
pub tcp_poll_thread-replicate :
    (poll_ms fails n : ℕ)
    → 0 < poll_ms
    → tcp_poll_thread poll_ms fails (true ∷ replicate n false)
      ≡ poll_ms ∷ tabulate n (λ i. min (i + 1) 5 * 1000)
unfolding tcp_poll_thread backoff
tcp_poll_thread-replicate poll_ms fails n h =
    ap₂ (λ p ps. p ∷ ps) (ground (arith, h))
      (failing poll_ms 0 n
        ∙ tabulate_ext n (λ i. min (0 + i + 1) 5 * 1000) (λ i. min (i + 1) 5 * 1000)
            (λ i h. ap (λ k. min k 5 * 1000) (omega arith)))

slices_stop :
    (n k : ℕ) (later : List Bool) → k ≤ n → sleep_slices n (replicate k true ++ (false ∷ later)) ≡ k
unfolding sleep_slices
slices_stop zero zero later h = refl
slices_stop zero (suc k) later h = absurd (omega arith)
slices_stop (suc n) zero later h = refl
slices_stop (suc n) (suc k) later h = ap suc (slices_stop n k later (omega arith))

-- A pause ends at the first test that finds the run flag at 0: after `k` such tests it has slept
-- `k` slices, if the pause is at least that long.
pub backoff_sleep_ms-stops :
    (ms k : ℕ) (later : List Bool)
    → k * 100 ≤ ms
    → 0 < k
    → backoff_sleep_ms ms (replicate k true ++ (false ∷ later)) ≡ k
unfolding backoff_sleep_ms
backoff_sleep_ms-stops ms k later h pos = slices_stop _ k later (ground (arith, h, pos))
