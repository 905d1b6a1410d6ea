-- ===== src/Ingress/Datagrams.antt =====
-- The receiving loop of ingress/udp_receiver.c: what becomes of every datagram.
use mathlib.Core.Path.{subst}
use io_t_collector.Base.{
  ℕ, suc, ◌+◌, ◌≡◌, ◌⊎◌, refl, sym, ap, ◌∙◌, arith, Bool, true, false, Bool-cases, Option-cases,
  inl, inr, List, [], ◌∷◌, if◌then◌else◌, length, take, Option, none, some,
}
use io_t_collector.Status.{Status, Result, done, fail, is_ok}
use io_t_collector.Frame.{EnvFrame}
use io_t_collector.Ring.Queue
use io_t_collector.Ring.Push.{Holds}
use io_t_collector.Stream.{decode_wire}
use io_t_collector.Stats.{Stats, stats_on_decode_fail}
use io_t_collector.Ingress.{Intake, admit}
use io_t_collector.Stream.Parse.{Result-cases}
use io_t_collector.Ingress.Udp.{
  is_fd, after_decoding, Event, take_datagram, recv_event, recv_events,
}
use io_t_collector.Ingress.Offer.{offer_all, Counted, one_admitted, counted_twice, counted_none}

-- The datagrams that the events bring.
abbrev pub datagrams : List Event → List (List ℕ)
datagrams [] = []
datagrams (ev ∷ evs) =
    let rest = datagrams evs in
    if ev.faulty
    then rest
    else elim ev.datagram as (λ _. List (List ℕ)) [ none ↦ rest | some bytes ↦ bytes ∷ rest ]

abbrev noted : Result EnvFrame → List EnvFrame × ℕ → List EnvFrame × ℕ
noted (done f) d = (f ∷ d.0, d.1)
noted (fail _) d = (d.0, suc d.1)

-- The frames of those that decode, and the number of the others.
abbrev pub decoded : List (List ℕ) → List EnvFrame × ℕ
decoded [] = ([], 0)
decoded (bytes ∷ more) = noted (decode_wire (take 512 bytes)) (decoded more)

-- What `n` datagrams that decode to `frames`, with `bad` others, leave of a queue that holds `queue`.
pub record Received (cap : ℕ) (queue : List EnvFrame) (s : Stats) (d : List EnvFrame × ℕ) (n : ℕ)
    (t : Intake) : Type 0 where
  pub holds : Holds cap (offer_all cap queue d.0).0 t.q1
  pub refused : ℕ
  pub all : (offer_all cap queue d.0).1 + refused + d.1 ≡ n
  pub counted : Counted s (offer_all cap queue d.0).1 refused d.1 t.stats

bad_counted :
    (s : Stats) {a b m : ℕ} {t : Stats}
    → Counted (stats_on_decode_fail s 1) a b m t
    → Counted s a b (suc m) t
unfolding stats_on_decode_fail
bad_counted s k = record {
  ingress = k.ingress;
  lost = k.lost;
  undecoded = omega (arith, k.undecoded);
}

-- One more datagram in front.
module _ (bytes : List ℕ) (ds : List (List ℕ)) where
  decoded_bad :
      (c : Status)
      → decode_wire (take 512 bytes) ≡ fail c
      → decoded (bytes ∷ ds) ≡ ((decoded ds).0, suc (decoded ds).1)
  decoded_bad c e = rw e refl

  decoded_frame :
      (f : EnvFrame)
      → decode_wire (take 512 bytes) ≡ done f
      → decoded (bytes ∷ ds) ≡ (f ∷ (decoded ds).0, (decoded ds).1)
  decoded_frame f e = rw e refl

module _ (cap : ℕ) (queue : List EnvFrame) (s : Intake) (h : Holds cap queue s.q1) where
  none-Received : Received cap queue s.stats ([], 0) 0 s
  unfolding offer_all
  none-Received = record { holds = h; refused = 0; all = refl; counted = counted_none s.stats }

  more_undecoded :
      (d : List EnvFrame × ℕ) (n : ℕ) {t : Intake}
      → Received cap queue (stats_on_decode_fail s.stats 1) d n t
      → Received cap queue s.stats (d.0, suc d.1) (suc n) t
  more_undecoded d n r = record {
    holds = r.holds;
    refused = r.refused;
    all = omega (arith, r.all);
    counted = bad_counted s.stats r.counted;
  }

  more_offered :
      (proto : ℕ) (f : EnvFrame) (d : List EnvFrame × ℕ) (n : ℕ) {t : Intake}
      → Received cap (Queue.push_try cap queue f).1 (admit proto s f).stats d n t
      → Received cap queue s.stats (f ∷ d.0, d.1) (suc n) t
  unfolding offer_all
  more_offered proto f d n r =
      let v = is_ok (Queue.push_try cap queue f).0 in
      record {
        holds = r.holds;
        refused = (if v then 0 else 1) + r.refused;
        all = one_each v _ _ r.all;
        counted = counted_twice (one_admitted proto cap queue s f h).1 r.counted;
      }
    where
      one_each :
          (v : Bool) (a b : ℕ)
          → a + b + d.1 ≡ n
          → (if v then 1 else 0) + a + ((if v then 0 else 1) + b) + d.1 ≡ suc n
      one_each true a b e = omega arith
      one_each false a b e = omega arith

-- One datagram, and then what came of the others.
take_bad :
    (proto : ℕ) (s : Intake) (bytes : List ℕ) (c : Status)
    → decode_wire (take 512 bytes) ≡ fail c
    → take_datagram proto s bytes ≡ record s { stats = stats_on_decode_fail s.stats 1 }
unfolding take_datagram
take_bad proto s bytes c e = ap (after_decoding proto s) e

take_frame :
    (proto : ℕ) (s : Intake) (bytes : List ℕ) (f : EnvFrame)
    → decode_wire (take 512 bytes) ≡ done f
    → take_datagram proto s bytes ≡ admit proto s f
unfolding take_datagram
take_frame proto s bytes f e = ap (after_decoding proto s) e

next_event :
    (mcast : Option ℕ) (s : Intake) (ev : Event) (bytes : List ℕ)
    → ev.faulty ≡ false
    → ev.datagram ≡ some bytes
    → (evs : List Event)
    → (recv_event mcast s ev ≡ take_datagram (if is_fd mcast ev.fd then 1 else 0) s bytes)
      × (datagrams (ev ∷ evs) ≡ bytes ∷ datagrams evs)
unfolding recv_event
next_event mcast s ev bytes sound read evs = (rw (sound, read) refl, rw (sound, read) refl)

no_event :
    (mcast : Option ℕ) (s : Intake) (ev : Event)
    → (ev.faulty ≡ true) ⊎ (ev.datagram ≡ none)
    → (evs : List Event) → (recv_event mcast s ev ≡ s) × (datagrams (ev ∷ evs) ≡ datagrams evs)
unfolding recv_event
no_event mcast s ev (inl fault) evs = (rw fault refl, rw fault refl)
no_event mcast s ev (inr nothing) evs = elim (Bool-cases ev.faulty) [
  | inl fault ↦ (rw fault refl, rw fault refl)
  | inr sound ↦ (rw (sound, nothing) refl, rw (sound, nothing) refl)
]

abbrev failed : Intake → Intake
failed s = record s { stats = stats_on_decode_fail s.stats 1 }

module _ (mcast : Option ℕ) (s : Intake) (ev : Event) (bytes : List ℕ) (sound : ev.faulty ≡ false)
    (read : ev.datagram ≡ some bytes) where
  abbrev proto_of : ℕ
  proto_of = if is_fd mcast ev.fd then 1 else 0

  event_bad :
      (c : Status) → decode_wire (take 512 bytes) ≡ fail c → recv_event mcast s ev ≡ failed s
  event_bad c bad = (next_event mcast s ev bytes sound read []).0 ∙ take_bad proto_of s bytes c bad

  event_frame :
      (f : EnvFrame)
      → decode_wire (take 512 bytes) ≡ done f
      → recv_event mcast s ev ≡ admit proto_of s f
  event_frame f good =
      (next_event mcast s ev bytes sound read []).0 ∙ take_frame proto_of s bytes f good

event-cases :
    (ev : Event)
    → ((ev.faulty ≡ true) ⊎ (ev.datagram ≡ none))
      ⊎ ((bytes : List ℕ) × (ev.faulty ≡ false) × (ev.datagram ≡ some bytes))
event-cases ev = elim (Bool-cases ev.faulty) [
  | inl fault ↦ inl (inl fault)
  | inr sound ↦ elim (Option-cases ev.datagram) [
    | inl nothing ↦ inl (inr nothing)
    | inr (bytes, read) ↦ inr (bytes, sound, read)
  ]
]

module _ (mcast : Option ℕ) (cap : ℕ) (queue : List EnvFrame) (s : Intake) (evs : List Event) where
  -- The first event and its datagram, put in place.
  first_event :
      (ev : Event) (u : Intake) (ds : List (List ℕ)) {d : List EnvFrame × ℕ}
      → recv_event mcast s ev ≡ u
      → datagrams (ev ∷ evs) ≡ ds
      → decoded ds ≡ d
      → Received cap queue s.stats d (length ds) (recv_events mcast u evs)
      → Received cap queue s.stats
          (decoded (datagrams (ev ∷ evs)))
          (length (datagrams (ev ∷ evs)))
          (recv_events mcast (recv_event mcast s ev) evs)
  first_event ev u ds step more same r =
      subst
        (λ u.
          Received cap queue s.stats (decoded (datagrams (ev ∷ evs)))
            (length (datagrams (ev ∷ evs))) (recv_events mcast u evs))
        (sym step)
        (subst (λ l. Received cap queue s.stats (decoded l) (length l) (recv_events mcast u evs))
          (sym more)
          (subst (λ d. Received cap queue s.stats d (length ds) (recv_events mcast u evs))
            (sym same) r))

-- From a valid Q1 the events leave it as the queue would be left by the frames of the datagrams that
-- decode, in order, and each datagram received is counted exactly once: as accepted, as lost because
-- the queue refused it, or as not decodable.
pub recv_events-Received :
    (mcast : Option ℕ) (cap : ℕ) (queue : List EnvFrame) (s : Intake) (evs : List Event)
    → Holds cap queue s.q1
    → Received cap queue s.stats
        (decoded (datagrams evs))
        (length (datagrams evs))
        (recv_events mcast s evs)
unfolding recv_events
recv_events-Received mcast cap queue s [] h = none-Received cap queue s h
recv_events-Received mcast cap queue s (ev ∷ evs) h = elim (event-cases ev) [
  | inl silent ↦
      let (same, rest) = no_event mcast s ev silent evs in
      first_event mcast cap queue s evs ev s (datagrams evs) same rest refl
        (recv_events-Received mcast cap queue s evs h)
  | inr (bytes, sound, read) ↦
      let proto : ℕ = if is_fd mcast ev.fd then 1 else 0 in
      let (_, more) = next_event mcast s ev bytes sound read evs in
      elim (Result-cases (decode_wire (take 512 bytes))) [
        | inl (c, bad) ↦
            first_event mcast cap queue s evs ev (failed s) (bytes ∷ datagrams evs)
              (event_bad mcast s ev bytes sound read c bad) more
              (decoded_bad bytes (datagrams evs) c bad)
              (more_undecoded cap queue s h _ _
                (recv_events-Received mcast cap queue (failed s) evs h))
        | inr (f, good) ↦
            let (held, _) = one_admitted proto cap queue s f h in
            let next = (Queue.push_try cap queue f).1 in
            first_event mcast cap queue s evs ev (admit proto s f) (bytes ∷ datagrams evs)
              (event_frame mcast s ev bytes sound read f good) more
              (decoded_frame bytes (datagrams evs) f good)
              (more_offered cap queue s h proto f _ _
                (recv_events-Received mcast cap next (admit proto s f) evs held))
      ]
]
