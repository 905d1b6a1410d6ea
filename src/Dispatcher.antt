-- ===== src/Dispatcher.antt =====
-- egress/dispatcher.c and `mcast_sender_send` of egress/mcast_sender.c: one frame on its way out.
use io_t_collector.Base.{
  ℕ, zero, suc, ◌+◌, Bool, true, false, not, ◌&&◌, if◌then◌else◌, ltb, leb, ◌-◌, ◌/◌, ◌==◌, Option,
  none, some, List, [], ◌∷◌, length,
}
use io_t_collector.Status.{Status, is_ok, Result, done, fail, ok, err_generic, err_io}
use io_t_collector.Frame.{EnvFrame, wire_size}
use io_t_collector.Proto.{frame_hton, frame_encode}
use io_t_collector.Tbf.{Tbf, tbf_tick, Sendto, taken, interrupted, refused}
use io_t_collector.Cache.{Cache, cache_writer_append}
use io_t_collector.Unicast.{
  Link, Send, Written, finished, unicast_link_online, unicast_sender_send_with_bucket,
}
use io_t_collector.Stats.{Stats, stats_on_drop, stats_on_egress}
pub mod Account
pub mod Life
pub mod Worker
pub mod Group
pub mod Monitor
pub mod Reconnect
pub mod Lifecycle
pub mod Whole

-- The answers of `sendto` one after another; `none` is a call that is still interrupted.
unfoldable pub sendto_loop : ℕ → List Sendto → Option Status
sendto_loop len [] = none
sendto_loop len (interrupted ∷ answers) = sendto_loop len answers
sendto_loop len (refused ∷ answers) = some err_io
sendto_loop len (taken n ∷ answers) = some (if n == len then ok else err_io)

unfoldable pub mcast_sender_send : Bool → Bool → List ℕ → List Sendto → Option Status
mcast_sender_send fd_ok dest_ready buf answers =
    if fd_ok
    then if length buf == 0
      then some err_generic
      else if dest_ready
      then sendto_loop (length buf) answers
      else some err_generic
    else some err_generic

-- The dispatcher's configuration and handles, and the states of the modules that it calls.
pub record Egress : Type 0 where
  pub mcast_open : Bool
  pub dest_ready : Bool
  pub unicast_open : Bool
  pub has_platform : Bool
  pub has_cache : Bool
  pub has_bucket : Bool
  pub link : Link
  pub cache : Cache
  pub stats : Stats

-- What the world answers to the calls for one frame.
pub record Answers : Type 0 where
  pub mcast : List Sendto
  pub fetched : List Status
  pub sends : List Send
  pub cache_write : ℕ

-- `none` is an interrupted call that has not come to an end.
unfoldable pub send_mcast : Egress → List ℕ → Answers → Option Egress
send_mcast e wire a =
    if e.mcast_open
    then elim (mcast_sender_send true e.dest_ready wire a.mcast) [
      | none ↦ none
      | some rc ↦ some (if is_ok rc then record e { stats = stats_on_egress e.stats 0 1 } else e)
    ]
    else some e

-- The status of the upload and the bytes that went out, with the link after it.
unfoldable pub send_unicast : Egress → List ℕ → Answers → Written × Link
send_unicast e wire a =
    if e.unicast_open && unicast_link_online e.link
    then unicast_sender_send_with_bucket e.link true e.has_bucket wire a.fetched a.sends
    else (finished err_io a.sends, e.link)

-- What is done with the frame when the upload has returned `rc`.
unfoldable pub settle : Egress → EnvFrame → Status → Answers → Egress
settle e frame rc a =
    if is_ok rc
    then record e { stats = stats_on_egress e.stats 1 1 }
    else if e.has_cache
    then record e { cache = (cache_writer_append e.cache frame a.cache_write).1 }
    else record e { stats = stats_on_drop e.stats 1 }

-- `none` is a call that waits for tokens, or for an interrupted call to go through.
unfoldable pub dispatch_one : Egress → EnvFrame → Answers → Option Egress
dispatch_one e frame a = elim (frame_encode (frame_hton frame) wire_size) [
  | fail _ ↦ some (record e { stats = stats_on_drop e.stats 1 })
  | done wire ↦ elim (send_mcast e wire a) [
    | none ↦ none
    | some e' ↦
        if e'.has_platform
        then (let (w, link) = send_unicast e' wire a in
            elim w.rc [
              | none ↦ none
              | some rc ↦ some (settle (record e' { link = link }) frame rc a)
            ])
        else some e'
  ]
]

-- The frames of a batch in their order, each with its answers.
unfoldable pub dispatch_batch : Egress → List (EnvFrame × Answers) → Option Egress
dispatch_batch e [] = some e
dispatch_batch e ((frame, a) ∷ rest) = elim (dispatch_one e frame a) [
  | none ↦ none
  | some e' ↦ dispatch_batch e' rest
]

-- `copy_opt_str`: the string without its final 0, if there is one; `none` is the return value -1.
unfoldable pub copy_opt_str : ℕ → Option (List ℕ) → Option (Option (List ℕ))
copy_opt_str cap none = some none
copy_opt_str cap (some src) = if ltb (length src) cap then some (some src) else none

abbrev tick_if_there : Option Tbf → ℕ → Option Tbf
tick_if_there none elapsed_ms = none
tick_if_there (some bucket) elapsed_ms = some (tbf_tick bucket elapsed_ms)

-- A turn of the loop of `dispatch_ticker` on the two buckets; `last` and `now` are nanoseconds.
unfoldable pub ticker_turn : Option Tbf → Option Tbf → ℕ → ℕ → Option Tbf × Option Tbf
ticker_turn outbound retry last now =
    let elapsed_ms = (now - last) / 1000000 in
    if leb now last
    then (outbound, retry)
    else if elapsed_ms == 0
    then (outbound, retry)
    else (tick_if_there outbound elapsed_ms, tick_if_there retry elapsed_ms)
