-- ===== src/Ring/Queue.antt =====
-- What the ring promises: a queue of at most `cap` frames that gives way to alarms.
use io_t_collector.Base.{
  ℕ, ◌≡◌, Bool, true, false, List, [], ◌∷◌, ◌++◌, ◌==◌, if◌then◌else◌, length,
}
use io_t_collector.Status.{Status, ok, err_full}
use io_t_collector.Frame.{EnvFrame, frame_alarm}

-- The queue without its oldest frame that is no alarm, if it has one.
unfoldable pub without_oldest_normal : List EnvFrame → List EnvFrame
without_oldest_normal [] = []
without_oldest_normal (f ∷ fs) =
    if f.frame_type == frame_alarm then f ∷ without_oldest_normal fs else fs

unfoldable pub all_alarms : List EnvFrame → Bool
all_alarms [] = true
all_alarms (f ∷ fs) = if f.frame_type == frame_alarm then all_alarms fs else false

-- A full queue refuses a normal frame, and an alarm takes the place of the oldest normal frame.
unfoldable pub push_try : ℕ → List EnvFrame → EnvFrame → Status × List EnvFrame
push_try cap fs f =
    if length fs == cap
    then (if f.frame_type == frame_alarm
        then (if all_alarms fs then (err_full, fs) else (ok, without_oldest_normal fs ++ (f ∷ [])))
        else (err_full, fs))
    else (ok, fs ++ (f ∷ []))

module _ (cap : ℕ) (fs : List EnvFrame) (f : EnvFrame) where
  pub push_room : (length fs == cap) ≡ false → push_try cap fs f ≡ (ok, fs ++ (f ∷ []))
  unfolding push_try
  push_room h = rw h

  pub push_normal :
      (length fs == cap) ≡ true
      → (f.frame_type == frame_alarm) ≡ false
      → push_try cap fs f ≡ (err_full, fs)
  unfolding push_try
  push_normal h n = rw (h, n)

  pub push_refused :
      (length fs == cap) ≡ true
      → (f.frame_type == frame_alarm) ≡ true
      → all_alarms fs ≡ true
      → push_try cap fs f ≡ (err_full, fs)
  unfolding push_try
  push_refused h a all = rw (h, a, all)

  pub push_squeezed :
      (length fs == cap) ≡ true
      → (f.frame_type == frame_alarm) ≡ true
      → all_alarms fs ≡ false
      → push_try cap fs f ≡ (ok, without_oldest_normal fs ++ (f ∷ []))
  unfolding push_try
  push_squeezed h a some_normal = rw (h, a, some_normal)
