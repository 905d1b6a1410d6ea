-- ===== src/Dispatcher/Account.antt =====
-- Where a frame ends that the dispatcher takes from Q2.
use mathlib.Core.Option.{none-ne-some, some-injective}
use io_t_collector.Base.{
  ℕ, ◌+◌, ◌≡◌, refl, sym, ap, ◌∙◌, arith, Bool, true, false, ◌&&◌, Bool-cases, inl, inr,
  if◌then◌else◌, ◌==◌, Option, none, some, List, ◌++◌, append-nil, length,
}
use io_t_collector.Base.Words.{u64}
use io_t_collector.Status.{Status, is_ok, ok_of_is_ok, Result, done, fail, ok}
use io_t_collector.Frame.{EnvFrame, wire_size}
use io_t_collector.Proto.{frame_hton, frame_encode}
use io_t_collector.Cache.{cache_writer_append}
use io_t_collector.Unicast.{Link, Written, unicast_link_online, unicast_sender_send_with_bucket}
use io_t_collector.Unicast.Write.{Writes, unicast_write_throttled-Writes}
use io_t_collector.Stats.{stats_on_drop, stats_on_egress}
use io_t_collector.Dispatcher.{
  Egress, mcast_sender_send, Answers, send_mcast, send_unicast, settle, dispatch_one,
}

whole_sent : (buf : List ℕ) (w : Written) → Writes buf w → w.rc ≡ some ok → w.sent ≡ buf
whole_sent buf w h e =
    sym (append-nil w.sent) ∙ ap (λ xs. w.sent ++ xs) (sym (h.whole e)) ∙ h.in_order

-- An upload that returns `IOT_OK` has put exactly the frame's bytes on the connection.
send_unicast-whole :
    (e : Egress) (wire : List ℕ) (a : Answers)
    → (send_unicast e wire a).0.rc ≡ some ok
    → (send_unicast e wire a).0.sent ≡ wire
unfolding send_unicast unicast_sender_send_with_bucket
send_unicast-whole e wire a = elim (Bool-cases (e.unicast_open && unicast_link_online e.link)) [
  | inr down ↦ rw down (λ h. ground arith)
  | inl up ↦ elim (Bool-cases (length wire == 0)) [
    | inl empty ↦ rw (up, empty) (λ h. ground arith)
    | inr some_bytes ↦
        rw (up, some_bytes)
          (λ h.
            whole_sent wire _ (unicast_write_throttled-Writes e.has_bucket wire a.fetched a.sends)
              h)
  ]
]

-- Where a frame ended: uploaded whole and counted, given to the cache, or counted as dropped.
pub data Fate (e : Egress) (frame : EnvFrame) (a : Answers) (e' : Egress) : Type 0 where
  uploaded :
      (wire : List ℕ)
      → frame_encode (frame_hton frame) wire_size ≡ done wire
      → (send_unicast e wire a).0.sent ≡ wire
      → e'.stats.unicast_ok ≡ u64 (e.stats.unicast_ok + 1)
      → e'.stats.dropped_total ≡ e.stats.dropped_total
      → e'.cache ≡ e.cache
      → Fate e frame a e'
  cached :
      e'.cache ≡ (cache_writer_append e.cache frame a.cache_write).1
      → e'.stats.unicast_ok ≡ e.stats.unicast_ok
      → e'.stats.dropped_total ≡ e.stats.dropped_total
      → Fate e frame a e'
  dropped :
      e'.stats.dropped_total ≡ u64 (e.stats.dropped_total + 1)
      → e'.stats.unicast_ok ≡ e.stats.unicast_ok
      → e'.cache ≡ e.cache
      → Fate e frame a e'

-- The multicast leg changes nothing but its own counter.
record SameBut (e e' : Egress) : Type 0 where
  same_upload : (wire : List ℕ) (a : Answers) → send_unicast e' wire a ≡ send_unicast e wire a
  same_platform : e'.has_platform ≡ e.has_platform
  same_unicast : e'.stats.unicast_ok ≡ e.stats.unicast_ok
  same_dropped : e'.stats.dropped_total ≡ e.stats.dropped_total
  same_cache : e'.cache ≡ e.cache

abbrev counted : Egress → Egress
counted e = record e { stats = stats_on_egress e.stats 0 1 }

same-SameBut : (e : Egress) → SameBut e e
same-SameBut e = record {
  same_upload = λ wire a. refl;
  same_platform = refl;
  same_unicast = refl;
  same_dropped = refl;
  same_cache = refl;
}

counted-SameBut : (e : Egress) → SameBut e (counted e)
unfolding send_unicast stats_on_egress
counted-SameBut e = record {
  same_upload = λ wire a. refl;
  same_platform = refl;
  same_unicast = refl;
  same_dropped = refl;
  same_cache = refl;
}

send_mcast-SameBut :
    (e e' : Egress) (wire : List ℕ) (a : Answers) → send_mcast e wire a ≡ some e' → SameBut e e'
unfolding send_mcast
send_mcast-SameBut e e' wire a h =
    go e.mcast_open (mcast_sender_send true e.dest_ready wire a.mcast) h
  where
    go :
        (open_ : Bool) (o : Option Status)
        → (if open_
            then elim o as (λ x. Option Egress) [
              | none ↦ none
              | some rc ↦ some (if is_ok rc then counted e else e)
            ]
            else some e)
          ≡ some e'
        → SameBut e e'
    go false o k = rw (← some-injective _ _ k) (same-SameBut e)
    go true none k = absurd (none-ne-some e' k)
    go true (some rc) k = elim (Bool-cases (is_ok rc)) [
      | inl good ↦ rw (← some-injective _ _ (rw good at k)) (counted-SameBut e)
      | inr bad ↦ rw (← some-injective _ _ (rw bad at k)) (same-SameBut e)
    ]

settle-Fate :
    (e m : Egress) (frame : EnvFrame) (wire : List ℕ) (rc : Status) (a : Answers) (link : Link)
    → SameBut e m
    → frame_encode (frame_hton frame) wire_size ≡ done wire
    → (send_unicast m wire a).0.rc ≡ some rc
    → Fate e frame a (settle (record m { link = link }) frame rc a)
unfolding settle stats_on_egress stats_on_drop
settle-Fate e m frame wire rc a link s encoded returned = elim (Bool-cases (is_ok rc)) [
  | inl good ↦ rw good (
      uploaded wire encoded
        (rw (← s.same_upload wire a)
          (send_unicast-whole m wire a (returned ∙ ap some (ok_of_is_ok rc good))))
        (ap (λ n. u64 (n + 1)) s.same_unicast) s.same_dropped s.same_cache)
  | inr bad ↦ elim (Bool-cases m.has_cache) [
    | inl has ↦
        rw (bad, has)
          (cached (ap (λ c. (cache_writer_append c frame a.cache_write).1) s.same_cache)
            s.same_unicast s.same_dropped)
    | inr has_none ↦
        rw (bad, has_none)
          (dropped (ap (λ n. u64 (n + 1)) s.same_dropped) s.same_unicast s.same_cache)
  ]
]

-- With an upload configured, every frame that `dispatch_one` has finished with met one of three
-- fates: all its bytes went out and the upload was counted, or the frame was given to the cache,
-- or it was counted as dropped; in each case the other two of upload count, cache and drop count
-- are unchanged.
pub dispatch_one-Fate :
    (e e' : Egress) (frame : EnvFrame) (a : Answers)
    → e.has_platform ≡ true
    → dispatch_one e frame a ≡ some e'
    → Fate e frame a e'
unfolding dispatch_one stats_on_drop send_unicast
dispatch_one-Fate e e' frame a configured h =
    encoded (frame_encode (frame_hton frame) wire_size) refl h
  where
    returned :
        (m : Egress) (wire : List ℕ) (o : Option Status)
        → SameBut e m
        → frame_encode (frame_hton frame) wire_size ≡ done wire
        → (send_unicast m wire a).0.rc ≡ o
        → elim o as (λ x. Option Egress) [
          | none ↦ none
          | some rc ↦ some (settle (record m { link = (send_unicast m wire a).1 }) frame rc a)
        ]
          ≡ some e'
        → Fate e frame a e'
    returned m wire none s enc r k = absurd (none-ne-some e' k)
    returned m wire (some rc) s enc r k =
        rw (← some-injective _ _ k) (settle-Fate e m frame wire rc a _ s enc r)

    sent :
        (wire : List ℕ) (o : Option Egress)
        → send_mcast e wire a ≡ o
        → frame_encode (frame_hton frame) wire_size ≡ done wire
        → elim o as (λ x. Option Egress) [
          | none ↦ none
          | some m ↦
              if m.has_platform
              then elim ((send_unicast m wire a).0.rc) as (λ x. Option Egress) [
                | none ↦ none
                | some rc ↦ some (settle (record m { link = (send_unicast m wire a).1 }) frame rc a)
              ]
              else some m
        ]
          ≡ some e'
        → Fate e frame a e'
    sent wire none r enc k = absurd (none-ne-some e' k)
    sent wire (some m) r enc k =
        let s = send_mcast-SameBut e m wire a r in
        returned m wire _ s enc refl (rw (s.same_platform ∙ configured) at k)

    encoded :
        (r : Result (List ℕ))
        → frame_encode (frame_hton frame) wire_size ≡ r
        → elim r as (λ x. Option Egress) [
          | fail _ ↦ some (record e { stats = stats_on_drop e.stats 1 })
          | done wire ↦ elim (send_mcast e wire a) as (λ x. Option Egress) [
            | none ↦ none
            | some m ↦
                if m.has_platform
                then elim ((send_unicast m wire a).0.rc) as (λ x. Option Egress) [
                  | none ↦ none
                  | some rc ↦
                      some (settle (record m { link = (send_unicast m wire a).1 }) frame rc a)
                ]
                else some m
          ]
        ]
          ≡ some e'
        → Fate e frame a e'
    encoded (fail _) enc k = rw (← some-injective _ _ k) (dropped refl refl refl)
    encoded (done wire) enc k = sent wire (send_mcast e wire a) refl enc k
