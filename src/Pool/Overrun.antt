-- ===== src/Pool/Overrun.antt =====
-- A water mark callback on a full queue.
use mathlib.Core.Path.{subst}
use io_t_collector.Base.{◌<◌, ◌≡◌, refl, sym, ap, ◌∙◌, arith, false, List, [], ◌∷◌, ◌++◌}
use io_t_collector.Frame.{EnvFrame}
use io_t_collector.Ring.{Ring, is_alarm, drop_oldest_normal, write_head}
use io_t_collector.Ring.Queue.{all_alarms, without_oldest_normal}
use io_t_collector.Ring.Inv.{IsValid, contents}
use io_t_collector.Ring.Drop.{Dropped, only_alarms, one_gone, drop_oldest_normal-Dropped}
use io_t_collector.Ring.Push.{Holds, write-Holds}
use io_t_collector.Ring.Block.{push_full_alarm}
use io_t_collector.Pool.{command_frame, pool_cmd_scale_up, tp_default_on_high_water}
use io_t_collector.Pool.System.{ThreadPool, on_high_water}

not_all : (f : EnvFrame) (fs : List EnvFrame) → is_alarm f ≡ false → all_alarms (f ∷ fs) ≡ false
unfolding all_alarms
not_all f fs n = rw n

first_gone :
    (f : EnvFrame) (fs : List EnvFrame) → is_alarm f ≡ false → without_oldest_normal (f ∷ fs) ≡ fs
unfolding without_oldest_normal
first_gone f fs n = rw n

squeezed :
    (q q' : Ring) (f : EnvFrame) (fs : List EnvFrame)
    → IsValid q
    → q.count ≡ q.capacity
    → contents q ≡ f ∷ fs
    → is_alarm f ≡ false
    → Dropped q q'
    → IsValid q' × (q'.capacity ≡ q.capacity) × (q'.count < q'.capacity) × (contents q' ≡ fs)
squeezed q q' f fs v full oldest n (only_alarms all same) =
    cc (sym (not_all f fs n) ∙ ap all_alarms (sym oldest) ∙ all)
squeezed q q' f fs v full oldest n (one_gone normal v' gone cap count dropped) =
    (v', cap, omega arith, gone ∙ ap without_oldest_normal oldest ∙ first_gone f fs n)

high_water_pushes :
    (tp : ThreadPool)
    → tp.task_queue.count ≡ tp.task_queue.capacity
    → (on_high_water tp).task_queue
      ≡ write_head (drop_oldest_normal tp.task_queue) (command_frame pool_cmd_scale_up)
unfolding on_high_water tp_default_on_high_water
high_water_pushes tp full =
    rw (push_full_alarm tp.task_queue (command_frame pool_cmd_scale_up) [] full refl) refl

-- On a valid full queue whose oldest frame is a task, `on_high_water` leaves a valid queue in which
-- the command stands behind the other frames: the oldest task is in it no longer.
pub on_high_water_loses :
    (tp : ThreadPool) (f : EnvFrame) (fs : List EnvFrame)
    → IsValid tp.task_queue
    → tp.task_queue.count ≡ tp.task_queue.capacity
    → contents tp.task_queue ≡ f ∷ fs
    → is_alarm f ≡ false
    → Holds tp.task_queue.capacity
        (fs ++ (command_frame pool_cmd_scale_up ∷ []))
        (on_high_water tp).task_queue
on_high_water_loses tp f fs v full oldest n =
    let q' = drop_oldest_normal tp.task_queue in
    let (v', cap, room, rest) =
      squeezed tp.task_queue q' f fs v full oldest n (drop_oldest_normal-Dropped tp.task_queue v) in
    let held = write-Holds q' (command_frame pool_cmd_scale_up) v' room in
    let wanted : Holds tp.task_queue.capacity (fs ++ (command_frame pool_cmd_scale_up ∷ []))
        (write_head q' (command_frame pool_cmd_scale_up)) =
      record {
        valid = held.valid;
        same_capacity = held.same_capacity ∙ cap;
        holds = held.holds ∙ ap (λ gs. gs ++ (command_frame pool_cmd_scale_up ∷ [])) rest;
      } in
    subst (Holds tp.task_queue.capacity (fs ++ (command_frame pool_cmd_scale_up ∷ [])))
      (sym (high_water_pushes tp full)) wanted
