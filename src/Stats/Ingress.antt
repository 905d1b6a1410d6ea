-- ===== src/Stats/Ingress.antt =====
-- The ingress counters, and the count of lost frames in a snapshot.
use io_t_collector.Base.{
  ℕ, ◌+◌, ◌%◌, ◌^◌, ◌<◌, ◌≡◌, refl, arith, true, Bool-cases, inl, inr, ◌==◌, Option, none, some,
  List, [], ◌∷◌,
}
use io_t_collector.Ring.{Ring}
use io_t_collector.Cache.{Cache}
use io_t_collector.Stats.{Stats, stats_on_ingress, stats_on_drop, stats_snapshot}

-- A call of `stats_on_ingress` by one of the four channels.
pub record Arrival : Type 0 where
  pub proto : ℕ
  pub frames : ℕ
  pub known : proto < 4

unfoldable pub count_all : Stats → List Arrival → Stats
count_all s [] = s
count_all s (a ∷ rest) = count_all (stats_on_ingress s a.proto a.frames) rest

-- The sum of the four channels, in 64 bits.
abbrev pub channels : Stats → ℕ
channels s = (s.udp_ucast_frames + s.udp_mcast_frames + s.tcp_frames + s.sim_frames) % 2 ^ 64

one_adds_up :
    (s : Stats) (a : Arrival)
    → channels s ≡ s.ingress_total
    → channels (stats_on_ingress s a.proto a.frames)
      ≡ (stats_on_ingress s a.proto a.frames).ingress_total
unfolding stats_on_ingress
one_adds_up s a h = elim (Bool-cases (a.proto == 0)) [
  | inl ucast ↦ rw ucast (omega (arith, h))
  | inr not_ucast ↦ elim (Bool-cases (a.proto == 1)) [
    | inl mcast ↦ rw (not_ucast, mcast) (omega (arith, h))
    | inr not_mcast ↦ elim (Bool-cases (a.proto == 2)) [
      | inl tcp ↦ rw (not_ucast, not_mcast, tcp) (omega (arith, h))
      | inr not_tcp ↦
          let sim : (a.proto == 3) ≡ true = ground (arith, a.known) in
          rw (not_ucast, not_mcast, not_tcp, sim) (omega (arith, h))
    ]
  ]
]

-- From counters that add up, and so from `stats_init` on, after any calls by the four channels the
-- total is the sum of the channels in 64 bits.
pub stats_on_ingress-total :
    (s : Stats) (arrivals : List Arrival)
    → channels s ≡ s.ingress_total
    → channels (count_all s arrivals) ≡ (count_all s arrivals).ingress_total
unfolding count_all
stats_on_ingress-total s [] h = h
stats_on_ingress-total s (a ∷ rest) h =
    stats_on_ingress-total (stats_on_ingress s a.proto a.frames) rest (one_adds_up s a h)

-- A snapshot with Q1 bound forgets every frame that `stats_on_drop` counted: its total is that of the
-- queues, whatever was counted before.
pub stats_snapshot_forgets :
    (s : Stats) (n : ℕ) (q1 : Ring) (q2 : Option Ring) (cache : Cache)
    → (stats_snapshot (stats_on_drop s n) (some q1) q2 cache).dropped_total
      ≡ (stats_snapshot s (some q1) q2 cache).dropped_total
unfolding stats_snapshot stats_on_drop
stats_snapshot_forgets s n q1 none cache = refl
stats_snapshot_forgets s n q1 (some q2) cache = refl
