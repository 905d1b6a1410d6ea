-- ===== src/Unicast/Write.antt =====
-- `unicast_write_all` and `unicast_write_throttled`: the bytes on the connection.
use io_t_collector.Base.{
  ℕ, ◌≡◌, ◌≢◌, refl, sym, ap, ◌∙◌, arith, Bool, true, false, if◌then◌else◌, ltb, ◌==◌, Option, none,
  some, List, [], ◌∷◌, ◌++◌, append-nil, append_assoc, length, take, drop, take-append-drop,
}
use io_t_collector.Status.{
  Status, is_ok, ok_of_is_ok, ok, err_generic, err_again, err_full, err_empty, err_nomem, err_proto,
  err_io, err_timeout, err_shutdown,
}
use io_t_collector.Tbf.{max_fetch_per_op}
use io_t_collector.Unicast.{
  Send, took, interrupted, broken, Written, finished, and_before, unicast_write_all,
  write_throttled_loop, unicast_write_throttled,
}

-- The bytes sent are the buffer from its start, and all of it on `IOT_OK`.
pub record Writes (buf : List ℕ) (w : Written) : Type 0 where
  pub unsent : List ℕ
  pub in_order : w.sent ++ unsent ≡ buf
  pub whole : w.rc ≡ some ok → unsent ≡ []

failed-Writes :
    (buf : List ℕ) (rc : Option Status) (answers : List Send)
    → rc ≢ some ok
    → Writes buf (record { rc = rc; sent = []; left = answers })
failed-Writes buf rc answers bad = record {
  unsent = buf;
  in_order = refl;
  whole = λ h. absurd (bad h);
}

before-Writes :
    (buf : List ℕ) (n : ℕ) (w : Written)
    → Writes (drop n buf) w
    → Writes buf (and_before (take n buf) w)
before-Writes buf n w h = record {
  unsent = h.unsent;
  in_order =
      append_assoc (take n buf) w.sent h.unsent
      ∙ ap (λ xs. take n buf ++ xs) h.in_order
      ∙ take-append-drop n buf;
  whole = h.whole;
}

-- Whatever `send` answers, the bytes sent are the buffer from its start, in order and without gaps,
-- and the whole buffer if the call returns `IOT_OK`.
pub unicast_write_all-Writes :
    (buf : List ℕ) (answers : List Send) → Writes buf (unicast_write_all buf answers)
unfolding unicast_write_all
unicast_write_all-Writes [] answers = record { unsent = []; in_order = refl; whole = λ h. refl }
unicast_write_all-Writes (b ∷ bs) [] = failed-Writes (b ∷ bs) none [] (λ h. ground arith)
unicast_write_all-Writes (b ∷ bs) (broken ∷ answers) =
    failed-Writes (b ∷ bs) (some err_io) answers (λ h. ground arith)
unicast_write_all-Writes (b ∷ bs) (interrupted ∷ answers) =
    unicast_write_all-Writes (b ∷ bs) answers
unicast_write_all-Writes (b ∷ bs) (took n ∷ answers) =
    choose (n == 0)
      (before-Writes (b ∷ bs) n _ (unicast_write_all-Writes (drop n (b ∷ bs)) answers))
  where
    choose :
        (c : Bool) {w : Written}
        → Writes (b ∷ bs) w
        → Writes (b ∷ bs) (if c then finished err_io answers else w)
    choose true h = failed-Writes (b ∷ bs) (some err_io) answers (λ e. ground arith)
    choose false h = h

module _ (buf : List ℕ) (n : ℕ) (answers : List Send) where
  -- A turn in which the bucket granted the bytes.
  abbrev granted_turn : Written → Written → Written
  granted_turn w next = elim w.rc [
    | none ↦ record w { rc = none }
    | some s ↦ if is_ok s then and_before w.sent next else record w { rc = some err_io }
  ]

  granted-Writes :
      (w next : Written)
      → Writes (take n buf) w
      → Writes (drop n buf) next
      → Writes buf (granted_turn w next)
  granted-Writes w next h k = go w.rc refl
    where
      part : (rc : Option Status) → rc ≢ some ok → Writes buf (record w { rc = rc })
      part rc bad = record {
        unsent = h.unsent ++ drop n buf;
        in_order =
            sym (append_assoc w.sent h.unsent (drop n buf))
            ∙ ap (λ xs. xs ++ drop n buf) h.in_order
            ∙ take-append-drop n buf;
        whole = λ e. absurd (bad e);
      }

      both : w.rc ≡ some ok → Writes buf (and_before w.sent next)
      both e = record {
        unsent = k.unsent;
        in_order =
            append_assoc w.sent next.sent k.unsent
            ∙ ap (λ xs. w.sent ++ xs) k.in_order
            ∙ ap (λ xs. xs ++ drop n buf)
                (sym (append-nil w.sent) ∙ ap (λ xs. w.sent ++ xs) (sym (h.whole e)) ∙ h.in_order)
            ∙ take-append-drop n buf;
        whole = k.whole;
      }

      choose :
          (s : Status) (c : Bool)
          → w.rc ≡ some s
          → is_ok s ≡ c
          → Writes buf (if c then and_before w.sent next else record w { rc = some err_io })
      choose s true e good = both (e ∙ ap some (ok_of_is_ok s good))
      choose s false e bad = part (some err_io) (λ h. ground arith)

      go :
          (rc : Option Status)
          → w.rc ≡ rc
          → Writes buf (elim rc [
            | none ↦ record w { rc = none }
            | some s ↦ if is_ok s then and_before w.sent next else record w { rc = some err_io }
          ])
      go none e = part none (λ h. ground arith)
      go (some s) e = choose s (is_ok s) e refl

  fetched-Writes :
      (f : Status) (w next again : Written)
      → Writes (take n buf) w
      → Writes (drop n buf) next
      → Writes buf again
      → Writes buf (elim f [
        | err_shutdown ↦ finished err_shutdown answers
        | ok ↦ granted_turn w next
        | _ ↦ again
      ])
  fetched-Writes ok w next again h k r = granted-Writes w next h k
  fetched-Writes err_shutdown w next again h k r =
      failed-Writes buf (some err_shutdown) answers (λ e. ground arith)
  fetched-Writes err_generic w next again h k r = r
  fetched-Writes err_again w next again h k r = r
  fetched-Writes err_full w next again h k r = r
  fetched-Writes err_empty w next again h k r = r
  fetched-Writes err_nomem w next again h k r = r
  fetched-Writes err_proto w next again h k r = r
  fetched-Writes err_io w next again h k r = r
  fetched-Writes err_timeout w next again h k r = r

loop-Writes :
    (buf : List ℕ) (fetched : List Status) (answers : List Send)
    → Writes buf (write_throttled_loop buf fetched answers)
unfolding write_throttled_loop
loop-Writes [] fetched answers = record { unsent = []; in_order = refl; whole = λ h. refl }
loop-Writes (b ∷ bs) [] answers = failed-Writes (b ∷ bs) none answers (λ h. ground arith)
loop-Writes (b ∷ bs) (f ∷ fetched) answers =
    let n = if ltb max_fetch_per_op (length (b ∷ bs)) then max_fetch_per_op else length (b ∷ bs) in
    let w = unicast_write_all (take n (b ∷ bs)) answers in
    fetched-Writes (b ∷ bs) n answers f w _ _ (unicast_write_all-Writes (take n (b ∷ bs)) answers)
      (loop-Writes (drop n (b ∷ bs)) fetched w.left) (loop-Writes (b ∷ bs) fetched answers)

-- The same holds with the token bucket before each 64 KiB: whatever the bucket and `send` answer, the
-- bytes sent are the buffer from its start, and the whole buffer if the call returns `IOT_OK`.
pub unicast_write_throttled-Writes :
    (bucket : Bool) (buf : List ℕ) (fetched : List Status) (answers : List Send)
    → Writes buf (unicast_write_throttled bucket buf fetched answers)
unfolding unicast_write_throttled
unicast_write_throttled-Writes true buf fetched answers = loop-Writes buf fetched answers
unicast_write_throttled-Writes false buf fetched answers =
    failed-Writes buf (some err_generic) answers (λ e. ground arith)
