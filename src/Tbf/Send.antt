-- ===== src/Tbf/Send.antt =====
-- `throttled_send`: the datagrams and the buffer.
use mathlib.Core.Option.{none-ne-some}
use io_t_collector.Base.{
  ℕ, zero, suc, ◌*◌, ◌≤◌, ◌≡◌, ◌≢◌, refl, sym, ap, ◌∙◌, arith, min, true, false, Bool-cases, inl,
  inr, if◌then◌else◌, ltb, ◌==◌, some, List, [], ◌∷◌, ◌++◌, append-nil, append_assoc, length, take,
  drop, length-drop, take-append-drop, replicate,
}
use io_t_collector.Status.{
  Status, ok, err_generic, err_again, err_full, err_empty, err_nomem, err_proto, err_io,
  err_timeout, err_shutdown,
}
use io_t_collector.Tbf.{
  max_fetch_per_op, Sendto, taken, interrupted, refused, SendTurn, Sending, ended, then_sent,
  send_loop, throttled_send,
}

abbrev pub concat : List (List ℕ) → List ℕ
concat [] = []
concat (d ∷ ds) = d ++ concat ds

-- The datagrams are the buffer from its start, each of at most 64 KiB, and all of it on `IOT_OK`.
pub record Sends (buf : List ℕ) (s : Sending) : Type 0 where
  pub left : List ℕ
  pub in_order : concat s.datagrams ++ left ≡ buf
  pub whole : s.rc ≡ some ok → left ≡ []

abbrev send_turn : List ℕ → ℕ → Sendto → Sending → Sending → Sending
send_turn remain want answer again next = elim answer [
  | refused ↦ ended err_io
  | interrupted ↦ again
  | taken n ↦ if n == want then then_sent (take want remain) next else ended err_io
]

ended-Sends : (buf : List ℕ) (s : Status) → s ≢ ok → Sends buf (ended s)
ended-Sends buf s bad = record { left = buf; in_order = refl; whole = λ h. absurd (bad (cc h)) }

then_sent-Sends :
    (buf : List ℕ) (n : ℕ) (s : Sending)
    → Sends (drop n buf) s
    → Sends buf (then_sent (take n buf) s)
then_sent-Sends buf n s h = record {
  left = h.left;
  in_order =
      append_assoc (take n buf) (concat s.datagrams) h.left
      ∙ ap (λ xs. take n buf ++ xs) h.in_order
      ∙ take-append-drop n buf;
  whole = h.whole;
}

module _ (buf : List ℕ) (want : ℕ) where
  answer-Sends :
      (answer : Sendto) (again next : Sending)
      → Sends buf again
      → Sends (drop want buf) next
      → Sends buf (send_turn buf want answer again next)
  answer-Sends refused again next h k = ended-Sends buf err_io (λ e. ground arith)
  answer-Sends interrupted again next h k = h
  answer-Sends (taken n) again next h k = elim (Bool-cases (n == want)) [
    | inl all_taken ↦ rw all_taken (then_sent-Sends buf want next k)
    | inr cut ↦ rw cut (ended-Sends buf err_io (λ e. ground arith))
  ]

  abbrev fetched_turn : Status → Sendto → Sending → Sending → Sending
  fetched_turn rc answer again next = elim rc [
    | err_shutdown ↦ ended err_shutdown
    | ok ↦ send_turn buf want answer again next
    | _ ↦ again
  ]

  fetched-Sends :
      (rc : Status) (answer : Sendto) (again next : Sending)
      → Sends buf again
      → Sends (drop want buf) next
      → Sends buf (fetched_turn rc answer again next)
  fetched-Sends ok answer again next h k = answer-Sends answer again next h k
  fetched-Sends err_shutdown answer again next h k =
      ended-Sends buf err_shutdown (λ e. ground arith)
  fetched-Sends err_generic answer again next h k = h
  fetched-Sends err_again answer again next h k = h
  fetched-Sends err_full answer again next h k = h
  fetched-Sends err_empty answer again next h k = h
  fetched-Sends err_nomem answer again next h k = h
  fetched-Sends err_proto answer again next h k = h
  fetched-Sends err_io answer again next h k = h
  fetched-Sends err_timeout answer again next h k = h

-- Whatever the bucket and `sendto` answer, the datagrams that `sendto` took are the buffer from its
-- start, in order and without gaps, and the whole buffer if the call returns `IOT_OK`.
pub send_loop-Sends : (buf : List ℕ) (ts : List SendTurn) → Sends buf (send_loop buf ts)
unfolding send_loop
send_loop-Sends [] ts = record { left = []; in_order = refl; whole = λ h. refl }
send_loop-Sends (b ∷ bs) [] = record {
  left = b ∷ bs;
  in_order = refl;
  whole = λ h. absurd (none-ne-some ok h);
}
send_loop-Sends (b ∷ bs) (t ∷ ts) =
    let want =
      if ltb max_fetch_per_op (length (b ∷ bs)) then max_fetch_per_op else length (b ∷ bs) in
    fetched-Sends (b ∷ bs) want t.fetched (t.sendto want) (send_loop (b ∷ bs) ts)
      (send_loop (drop want (b ∷ bs)) ts) (send_loop-Sends (b ∷ bs) ts)
      (send_loop-Sends (drop want (b ∷ bs)) ts)

-- A turn in which the bucket grants the bytes and `sendto` takes the datagram.
abbrev pub good_turn : SendTurn
good_turn = record { fetched = ok; sendto = λ n. taken n }

loop_sends :
    (b : ℕ) (bs : List ℕ) (ts : List SendTurn)
    → let n = min max_fetch_per_op (length (b ∷ bs)) in
      send_loop (b ∷ bs) (good_turn ∷ ts)
      ≡ then_sent (take n (b ∷ bs)) (send_loop (drop n (b ∷ bs)) ts)
unfolding send_loop
loop_sends b bs ts =
    rw (capped (length (b ∷ bs)), self (min max_fetch_per_op (length (b ∷ bs)))) refl
  where
    capped :
        (k : ℕ) → (if ltb max_fetch_per_op k then max_fetch_per_op else k) ≡ min max_fetch_per_op k
    capped k = ground arith

    self : (k : ℕ) → (k == k) ≡ true
    self k = ground arith

nothing_left : (ts : List SendTurn) → send_loop [] ts ≡ ended ok
unfolding send_loop
nothing_left ts = refl

starts :
    (b : ℕ) (bs : List ℕ) (ts : List SendTurn)
    → throttled_send true (b ∷ bs) ts ≡ send_loop (b ∷ bs) ts
unfolding throttled_send
starts b bs ts = let some_bytes : (suc (length bs) == 0) ≡ false = ground arith in rw some_bytes

loop_ends :
    (buf : List ℕ) (n : ℕ)
    → length buf ≤ n * max_fetch_per_op
    → (send_loop buf (replicate n good_turn)).rc ≡ some ok
loop_ends [] n enough = ap (λ s. s.rc) (nothing_left (replicate n good_turn))
loop_ends (b ∷ bs) zero enough = absurd (omega arith)
loop_ends (b ∷ bs) (suc n) enough =
    ap (λ s. s.rc) (loop_sends b bs (replicate n good_turn))
    ∙ loop_ends (drop (min max_fetch_per_op (length (b ∷ bs))) (b ∷ bs)) n
        (omega (arith, length-drop (min max_fetch_per_op (length (b ∷ bs))) (b ∷ bs)))

-- The call ends: with a good turn for each 64 KiB of the buffer it returns `IOT_OK`, and the datagrams
-- are the buffer.
pub throttled_send-ends :
    (buf : List ℕ) (n : ℕ)
    → buf ≢ []
    → length buf ≤ n * max_fetch_per_op
    → ((throttled_send true buf (replicate n good_turn)).rc ≡ some ok)
      × (concat (throttled_send true buf (replicate n good_turn)).datagrams ≡ buf)
throttled_send-ends [] n nonempty enough = absurd (nonempty refl)
throttled_send-ends (b ∷ bs) n nonempty enough = rw (starts b bs (replicate n good_turn)) (
  done_,
  sym (append-nil _)
      ∙ ap (λ l. concat (send_loop (b ∷ bs) (replicate n good_turn)).datagrams ++ l)
          (sym (s.whole done_))
      ∙ s.in_order,
)
  where
    done_ : (send_loop (b ∷ bs) (replicate n good_turn)).rc ≡ some ok
    done_ = loop_ends (b ∷ bs) n enough

    s : Sends (b ∷ bs) (send_loop (b ∷ bs) (replicate n good_turn))
    s = send_loop-Sends (b ∷ bs) (replicate n good_turn)
