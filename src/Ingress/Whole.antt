-- ===== src/Ingress/Whole.antt =====
-- The whole frames at the front of the bytes that have come from a device.
use native.Mathlib.Decide.{dec_lt}
use io_t_collector.Base.{
  ℕ, ◌≤◌, ◌<◌, ◌≡◌, refl, sym, ap, ap₂, ◌∙◌, arith, List, [], ◌∷◌, ◌++◌, append_assoc, length,
  length-append, drop, get_or,
}
use io_t_collector.Frame.{EnvFrame, wire_size}
use io_t_collector.Proto.{frame_hton}
use io_t_collector.Stream.Frames.{Sent, nothing, frame, encode-length}

append_split :
    (w p r q : List ℕ)
    → p ++ r ≡ w ++ q
    → length w ≤ length p
    → (p' : List ℕ) × (p ≡ w ++ p') × (p' ++ r ≡ q)
append_split [] p r q e h = (p, refl, e)
append_split (x ∷ w) [] r q e h = absurd (omega arith)
append_split (x ∷ w) (y ∷ p) r q e h =
    let (p', front, back) = append_split w p r q (ap (drop 1) e) (omega arith) in
    (p', ap₂ (λ z zs. z ∷ zs) (ap (λ l. get_or l 0 0) e) front, back)

-- The bytes `p` that have come, of the frames `fs` and the `rest` of one more: the frames that are
-- whole, and what follows.
pub record Split (fs : List EnvFrame) (p r rest : List ℕ) : Type 0 where
  pub whole : List EnvFrame
  pub later : List EnvFrame
  pub front : List ℕ
  pub back : List ℕ
  pub begun : List ℕ
  pub frames : fs ≡ whole ++ later
  pub whole_sent : Sent whole front
  pub later_sent : Sent later back
  pub come : p ≡ front ++ begun
  pub to_come : begun ++ r ≡ back ++ rest
  pub short : length begun < wire_size

pub append-Split :
    {fs : List EnvFrame} {ws : List ℕ} (p r rest : List ℕ)
    → Sent fs ws
    → p ++ r ≡ ws ++ rest
    → length rest < wire_size
    → Split fs p r rest
append-Split p r rest nothing e h = record {
  whole = [];
  later = [];
  front = [];
  back = [];
  begun = p;
  frames = refl;
  whole_sent = nothing;
  later_sent = nothing;
  come = refl;
  to_come = e;
  short = omega (arith, h, ap length e, length-append p r);
}
append-Split p r rest (frame f {fs} w {ws} v enc s) e h = elim (dec_lt (length p) wire_size) [
  | yes few ↦ record {
    whole = [];
    later = f ∷ fs;
    front = [];
    back = w ++ ws;
    begun = p;
    frames = refl;
    whole_sent = nothing;
    later_sent = frame f w v enc s;
    come = refl;
    to_come = e;
    short = few;
  }
  | no many ↦
      let (p', at_front, more) =
        append_split w p r (ws ++ rest) (e ∙ append_assoc w ws rest)
          (omega (arith, many, encode-length (frame_hton f) w enc)) in
      let t = append-Split p' r rest s more h in
      record {
        whole = f ∷ t.whole;
        later = t.later;
        front = w ++ t.front;
        back = t.back;
        begun = t.begun;
        frames = ap (λ l. f ∷ l) t.frames;
        whole_sent = frame f w v enc t.whole_sent;
        later_sent = t.later_sent;
        come = at_front ∙ ap (λ l. w ++ l) t.come ∙ sym (append_assoc w t.front t.begun);
        to_come = t.to_come;
        short = t.short;
      }
]
