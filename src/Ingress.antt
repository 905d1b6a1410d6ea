-- ===== src/Ingress.antt =====
-- ingress/tcp_poller.c and ingress/udp_receiver.c: what the two share, the way of a decoded frame
-- into Q1 and into the counters.
pub mod Tcp
pub mod Udp
pub mod Open
pub mod Offer
pub mod Datagrams
pub mod Whole
pub mod Session
pub mod Retry
use io_t_collector.Base.{ℕ, List, [], ◌∷◌}
use io_t_collector.Status.{Status, ok}
use io_t_collector.Frame.{EnvFrame}
use io_t_collector.Ring.{Ring, ring_push_try}
use io_t_collector.Stats.{Stats, stats_on_ingress, stats_on_drop}

-- Q1 and the counters, which the ingress threads share.
pub record Intake : Type 0 where
  pub q1 : Ring
  pub stats : Stats

abbrev pub count_push : Status → ℕ → Stats → Stats
count_push ok proto s = stats_on_ingress s proto 1
count_push _ proto s = stats_on_drop s 1

-- `ring_push_try` and the counter for its result: the body of `tcp_frame_sink`, and the end of the
-- loop body of `udp_recv_thread`.
unfoldable pub admit : ℕ → Intake → EnvFrame → Intake
admit proto s f =
    let (rc, q) = ring_push_try s.q1 f in record { q1 = q; stats = count_push rc proto s.stats }

unfoldable pub admit_all : ℕ → Intake → List EnvFrame → Intake
admit_all proto s [] = s
admit_all proto s (f ∷ fs) = admit_all proto (admit proto s f) fs
