-- ===== src/Eeprom/Log.antt =====
-- The log of the saves, over any events.
use config_wp.Base.{
  ◌≤◌, Bool, true, false, Option, none, some, List, [], ◌∷◌, length, arith, length-append,
  if◌then◌else◌,
}
use config_wp.Config.State.{Config, ConfigStatus, World}
use config_wp.Config.Lifecycle.{config_save}
use config_wp.Eeprom.Requests.{EepromReq, commit, field, process_request}
use config_wp.Eeprom.Queue.{
  EepromTask, Shared, waiting, draining, send, queue_config_change, queue_config_commit, go_on,
  after_task_save, task_turn, task_step, Event, change, order, call, task_runs, run_event, run_from,
  run_events,
}

-- The log only grows.
unfoldable pub Grows : Shared → Option Shared → Type 0
Grows s none = Unit
Grows s (some t) = length s.log ≤ length t.log

go_on-Grows :
    (s : Shared) (dirty : Bool) (rest : List EepromReq) (o : Option (Bool × Config))
    → Grows s (go_on s dirty rest o)
unfolding Grows
go_on-Grows s dirty rest none = tt
go_on-Grows s dirty rest (some (more, c)) = omega arith

saved-Grows : (s : Shared) (o : Option (ConfigStatus × World)) → Grows s (after_task_save s o)
unfolding Grows
saved-Grows s none = tt
saved-Grows s (some (status, w)) = omega (arith, length-append s.log (status ∷ []))

turn-Grows :
    (s : Shared) (task : EepromTask) (queue : List EepromReq) → Grows s (task_turn task queue s)
unfolding Grows
turn-Grows s waiting [] = omega arith
turn-Grows s waiting (req ∷ rest) = go_on-Grows s false rest (process_request s.world.config req)
turn-Grows s (draining dirty) (req ∷ rest) =
    go_on-Grows s dirty rest (process_request s.world.config req)
turn-Grows s (draining true) [] = saved-Grows s (config_save s.world)
turn-Grows s (draining false) [] = omega arith

send-Grows : (posted : Bool) (req : EepromReq) (s : Shared) → Grows s (some (send posted req s).1)
unfolding Grows
send-Grows true req s = omega arith
send-Grows false req s = omega arith

if-Grows :
    (s : Shared) (b : Bool) (x y : Bool × Shared)
    → Grows s (some x.1)
    → Grows s (some y.1)
    → Grows s (some (if b then x else y).1)
if-Grows s true x y h k = h
if-Grows s false x y h k = k

event-Grows : (e : Event) (s : Shared) → Grows s (run_event e s)
unfolding run_event task_step queue_config_change queue_config_commit Grows
event-Grows (change posted type item param value) s =
    if-Grows s _ (false, s) (send posted (field type item param value) s) (omega arith)
      (send-Grows posted (field type item param value) s)
event-Grows (order posted) s =
    if-Grows s _ (false, s) (send posted commit s) (omega arith) (send-Grows posted commit s)
event-Grows (call c) s = omega arith
event-Grows task_runs s = turn-Grows s s.task s.queue

Grows-trans :
    (s t : Shared) (o : Option Shared) → length s.log ≤ length t.log → Grows t o → Grows s o
unfolding Grows
Grows-trans s t none h k = tt
Grows-trans s t (some u) h k = omega arith

pub events-Grow : (es : List Event) (s : Shared) → Grows s (run_events es s)
unfolding run_events Grows
events-Grow [] s = omega arith
events-Grow (e ∷ es) s = next (run_event e s) (event-Grows e s) (λ t. events-Grow es t)
  where
    next :
        (o : Option Shared)
        → Grows s o
        → ((t : Shared) → Grows t (run_events es t))
        → Grows s (run_from (run_events es) o)
    next none h f = tt
    next (some t) h f = Grows-trans s t (run_events es t) h (f t)
