-- ===== src/Cleaner/Process.antt =====
-- `cleaner_process`: the contexts it keeps, the frames it lets through and those it drops.
use mathlib.Core.Option.{none-ne-some, some-injective}
use io_t_collector.Base.{
  ℕ, ◌-◌, ◌^◌, ◌≤◌, ◌⊎◌, ◌≡◌, ◌≢◌, refl, sym, ◌∙◌, arith, Bool, true, false, Bool-cases,
  Option-cases, inl, inr, if◌then◌else◌, ltb, leb, ◌==◌, ◌&&◌, ◌||◌, Option, none, some,
}
use io_t_collector.Frame.{EnvFrame, frame_heart}
use io_t_collector.Ring.{is_alarm}
use io_t_collector.Station.{Doubles}
use io_t_collector.Cleaner.{
  clean_pass, clean_drop, clean_alarm, InternalCtx, Contexts, put_ctx, fresh_ctx, get_internal_ctx,
  temperature_out, out_of_range, is_stale, earlier, Cleaned, process_in_ctx, Processed,
  cleaner_process,
}
use io_t_collector.Cleaner.Outcome.{
  passed_ctx, Checked, turned_away, let_through, Outcome, stale, put_off, exchanged, direct,
  process_in_ctx-Outcome,
}
use io_t_collector.Cleaner.Inv.{IsCtx, fresh_ctx-IsCtx, process_in_ctx-IsCtx}

module _ (d : Doubles) (alloc : Bool) (ctxs : Contexts) (f : EnvFrame) where
  -- What the call gives for a frame that reaches the context `ctx`.
  abbrev in_ctx : InternalCtx → Processed
  in_ctx ctx =
      let (frame', c) = process_in_ctx d ctx f in
      record {
        result = c.result;
        frame = frame';
        ctxs = put_ctx ctxs f.station_id c.ctx;
        counted = c.counted;
      }

  data Routed : Processed → Type 1 where
    privileged :
        is_alarm f ≡ true
        → Routed (record { result = clean_alarm; frame = f; ctxs = ctxs; counted = none })
    unused :
        is_alarm f ≡ false
        → (k : Option ℕ)
        → Routed (record { result = clean_drop; frame = f; ctxs = ctxs; counted = k })
    routed :
        is_alarm f ≡ false
        → (f.frame_type == frame_heart) ≡ false
        → (ctx : InternalCtx) → get_internal_ctx alloc ctxs f.station_id ≡ some ctx
        → Routed (in_ctx ctx)

  cleaner_process-Routed : Routed (cleaner_process d alloc ctxs f)
  unfolding cleaner_process
  cleaner_process-Routed = elim (Bool-cases (is_alarm f)) [
    | inl alarm ↦ rw alarm (privileged alarm)
    | inr other ↦ elim (Bool-cases (f.frame_type == frame_heart)) [
      | inl heart ↦ rw (other, heart) (unused other (some 4))
      | inr normal ↦ elim (Option-cases (get_internal_ctx alloc ctxs f.station_id)) [
        | inl no_memory ↦ rw (other, normal, no_memory) (unused other none)
        | inr (ctx, found) ↦ rw (other, normal, found) (routed other normal ctx found)
      ]
    ]
  ]

-- The contexts that exist are well formed.
pub record IsContexts (ctxs : Contexts) : Type 0 where
  pub all_valid : (id : ℕ) (ctx : InternalCtx) → ctxs id ≡ some ctx → IsCtx ctx

found-IsCtx :
    (alloc : Bool) (ctxs : Contexts) (id : ℕ) (ctx : InternalCtx)
    → IsContexts ctxs
    → get_internal_ctx alloc ctxs id ≡ some ctx
    → IsCtx ctx
unfolding get_internal_ctx
found-IsCtx alloc ctxs id ctx v found = go (ctxs id) (v.all_valid id) found
  where
    go :
        (o : Option InternalCtx)
        → ((c : InternalCtx) → o ≡ some c → IsCtx c)
        → elim o [ some c ↦ some c | none ↦ if alloc then some (fresh_ctx id) else none ] ≡ some ctx
        → IsCtx ctx
    go (some c) h e = h ctx e
    go none h e = elim (Bool-cases alloc) [
      | inl memory ↦ rw (← some-injective _ _ (rw memory at e)) (fresh_ctx-IsCtx id)
      | inr no_memory ↦ absurd (none-ne-some ctx (rw no_memory at e))
    ]

put_ctx-IsContexts :
    (ctxs : Contexts) (id : ℕ) (ctx : InternalCtx)
    → IsContexts ctxs
    → IsCtx ctx
    → IsContexts (put_ctx ctxs id ctx)
put_ctx-IsContexts ctxs id ctx v c = record {
  all_valid = λ i ctx' e. elim (Bool-cases (i == id)) [
    | inl same ↦ rw (some-injective _ _ (rw same at e)) at c
    | inr other ↦ v.all_valid i ctx' (rw other at e)
  ];
}

-- `cleaner_process` keeps every context well formed: its windows, indices and counts stay in bounds,
-- and its reorder buffer never holds an alarm. A frame that the call passes on is an alarm exactly if
-- the frame it got is.
pub cleaner_process-IsContexts :
    (d : Doubles) (alloc : Bool) (ctxs : Contexts) (f : EnvFrame)
    → IsContexts ctxs
    → IsContexts (cleaner_process d alloc ctxs f).ctxs
      × (is_alarm (cleaner_process d alloc ctxs f).frame ≡ is_alarm f)
cleaner_process-IsContexts d alloc ctxs f v = go _ (cleaner_process-Routed d alloc ctxs f)
  where
    go :
        (p : Processed)
        → Routed d alloc ctxs f p
        → IsContexts p.ctxs × (is_alarm p.frame ≡ is_alarm f)
    go p (privileged alarm) = (v, refl)
    go p (unused other k) = (v, refl)
    go p (routed other normal ctx found) =
        let (c, same) =
          process_in_ctx-IsCtx d ctx f (found-IsCtx alloc ctxs f.station_id ctx v found) other in
        (put_ctx-IsContexts ctxs f.station_id _ v c, same ∙ sym other)

-- A call changes no other station's context.
pub cleaner_process-isolated :
    (d : Doubles) (alloc : Bool) (ctxs : Contexts) (f : EnvFrame) (id : ℕ)
    → id ≢ f.station_id
    → (cleaner_process d alloc ctxs f).ctxs id ≡ ctxs id
cleaner_process-isolated d alloc ctxs f id other = go _ (cleaner_process-Routed d alloc ctxs f)
  where
    apart : (id == f.station_id) ≡ false
    apart = ground arith

    go : (p : Processed) → Routed d alloc ctxs f p → p.ctxs id ≡ ctxs id
    go p (privileged alarm) = refl
    go p (unused _ k) = refl
    go p (routed _ normal ctx found) = rw apart

-- What a frame that passed leaves: it is in range, and its time stamp is the last valid one.
record Passed (p : Processed) (id : ℕ) : Type 0 where
  within : out_of_range p.frame ≡ false
  ctx : InternalCtx
  stored : p.ctxs id ≡ some ctx
  has_time : ctx.has_valid_timestamp ≡ true
  same_sec : ctx.last_valid_timestamp_sec ≡ p.frame.timestamp_sec
  same_ms : ctx.last_valid_timestamp_ms ≡ p.frame.timestamp_ms

Checked-Passed :
    (d : Doubles) (ctxs : Contexts) (ctx : InternalCtx) (f : EnvFrame) (id : ℕ) (c : Cleaned)
    → Checked d ctx f c
    → c.result ≡ clean_pass
    → Passed
        (record { result = c.result; frame = f; ctxs = put_ctx ctxs id c.ctx; counted = c.counted })
        id
Checked-Passed d ctxs ctx f id c (turned_away k) e = absurd (ground arith)
Checked-Passed d ctxs ctx f id c (let_through within usual) e = record {
  within = within;
  ctx = passed_ctx ctx f;
  stored = rw (same id) refl;
  has_time = refl;
  same_sec = refl;
  same_ms = refl;
}
  where
    same : (i : ℕ) → (i == i) ≡ true
    same i = ground arith

pass-Passed :
    (d : Doubles) (alloc : Bool) (ctxs : Contexts) (f : EnvFrame)
    → (cleaner_process d alloc ctxs f).result ≡ clean_pass
    → Passed (cleaner_process d alloc ctxs f) f.station_id
pass-Passed d alloc ctxs f = go _ (cleaner_process-Routed d alloc ctxs f)
  where
    inner :
        (ctx : InternalCtx) (r : EnvFrame × Cleaned)
        → Outcome d ctx f r
        → r.1.result ≡ clean_pass
        → Passed
            (record {
              result = r.1.result;
              frame = r.0;
              ctxs = put_ctx ctxs f.station_id r.1.ctx;
              counted = r.1.counted;
            })
            f.station_id
    inner ctx r (stale old) e = absurd (ground arith)
    inner ctx r (put_off new far room) e = absurd (ground arith)
    inner ctx r (exchanged new far full c checked) e =
        Checked-Passed d ctxs _ _ f.station_id c checked e
    inner ctx r (direct new near c checked) e = Checked-Passed d ctxs _ _ f.station_id c checked e

    go : (p : Processed) → Routed d alloc ctxs f p → p.result ≡ clean_pass → Passed p f.station_id
    go p (privileged alarm) e = absurd (ground arith)
    go p (unused other k) e = absurd (ground arith)
    go p (routed other normal ctx found) e = inner ctx _ (process_in_ctx-Outcome d ctx f) e

-- The physical ranges: PM up to 1000, -40.0 to 80.0 degrees in tenths as the bits of an `int16_t`, up
-- to 100.0 per cent, CO up to 50000 and noise up to 150.0 dB.
pub record IsPhysical (f : EnvFrame) : Type 0 where
  pub pm25_in : f.pm25 ≤ 1000
  pub pm10_in : f.pm10 ≤ 1000
  pub temperature_in : (f.temperature ≤ 800) ⊎ (2 ^ 16 - 400 ≤ f.temperature)
  pub humidity_in : f.humidity ≤ 1000
  pub co_in : f.co_ppb ≤ 50000
  pub noise_in : f.noise_db ≤ 1500

in_either : (t : ℕ) → temperature_out t ≡ false → (t ≤ 800) ⊎ (2 ^ 16 - 400 ≤ t)
in_either t within = elim (Bool-cases (ltb t (2 ^ 15))) [
  | inl warm ↦ inl (ground (arith, within, warm))
  | inr cold ↦ inr (ground (arith, within, cold))
]

within-IsPhysical : (f : EnvFrame) → out_of_range f ≡ false → IsPhysical f
unfolding out_of_range
within-IsPhysical f within = record {
  pm25_in = ground (arith, within);
  pm10_in = ground (arith, within);
  temperature_in = in_either f.temperature (ground (arith, within));
  humidity_in = ground (arith, within);
  co_in = ground (arith, within);
  noise_in = ground (arith, within);
}

-- Every reading of a frame that `cleaner_process` lets through as CLEAN_PASS is within its physical
-- range, also when the frame comes from the reorder buffer.
pub cleaner_process-range :
    (d : Doubles) (alloc : Bool) (ctxs : Contexts) (f : EnvFrame)
    → (cleaner_process d alloc ctxs f).result ≡ clean_pass
    → IsPhysical (cleaner_process d alloc ctxs f).frame
cleaner_process-range d alloc ctxs f e = within-IsPhysical _ (pass-Passed d alloc ctxs f e).within

late_is_stale :
    (p : Processed) (g : EnvFrame) (k : Passed p g.station_id)
    → earlier p.frame g ≡ false
    → is_stale k.ctx g ≡ true
unfolding is_stale
late_is_stale p g k late =
    rw (k.has_time, k.same_sec, k.same_ms)
      (not_later p.frame.timestamp_sec p.frame.timestamp_ms g.timestamp_sec g.timestamp_ms late)
  where
    not_later :
        (a a' b b' : ℕ)
        → (ltb a b || (a == b && ltb a' b')) ≡ false
        → (ltb b a || (b == a && leb b' a')) ≡ true
    not_later a a' b b' h = ground arith

dropped_stale :
    (d : Doubles) (alloc : Bool) (ctxs : Contexts) (g : EnvFrame) (ctx : InternalCtx)
    → ctxs g.station_id ≡ some ctx
    → is_alarm g ≡ false
    → (g.frame_type == frame_heart) ≡ false
    → is_stale ctx g ≡ true
    → ((cleaner_process d alloc ctxs g).result ≡ clean_drop)
      × ((cleaner_process d alloc ctxs g).counted ≡ some 3)
unfolding cleaner_process get_internal_ctx process_in_ctx
dropped_stale d alloc ctxs g ctx stored normal data_frame old =
    rw (normal, data_frame, stored, old) (refl, refl)

-- Once a frame has passed, the next frame of its station that is no alarm and no heartbeat and whose
-- time stamp is the same or earlier is dropped and counted as a duplicate.
pub cleaner_process-duplicate :
    (d : Doubles) (alloc alloc' : Bool) (ctxs : Contexts) (f g : EnvFrame)
    → let p = cleaner_process d alloc ctxs f in
      p.result ≡ clean_pass
      → g.station_id ≡ f.station_id
      → is_alarm g ≡ false
      → (g.frame_type == frame_heart) ≡ false
      → earlier p.frame g ≡ false
      → let r = cleaner_process d alloc' p.ctxs g in (r.result ≡ clean_drop) × (r.counted ≡ some 3)
cleaner_process-duplicate d alloc alloc' ctxs f g e same normal data_frame late =
    let p = cleaner_process d alloc ctxs f in
    let k : Passed p g.station_id = rw same (pass-Passed d alloc ctxs f e) in
    dropped_stale d alloc' p.ctxs g k.ctx k.stored normal data_frame (late_is_stale p g k late)
