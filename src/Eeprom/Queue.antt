-- ===== src/Eeprom/Queue.antt =====
-- The queue between the producers and eeprom_task, and the task's loop step by step. FreeRTOS is
-- not in the repository: whether xQueueSend finds room before its timeout is the argument `posted`,
-- and a queue gives its items in the order in which they were posted.
use config_wp.Base.{
  ℕ, zero, suc, Bool, true, false, not, ◌||◌, Option, none, some, List, [], ◌∷◌, ◌++◌,
  if◌then◌else◌,
}
use config_wp.Config.State.{Config, ConfigStatus, World}
use config_wp.Config.Calls.{SetCall, run_call}
use config_wp.Config.Lifecycle.{config_save}
use config_wp.Eeprom.{EepromValue}
use config_wp.Eeprom.Requests.{
  EepromReq, EepromConfigType, commit, field, type_count, process_request,
}

-- Where eeprom_task stands: at the receive that blocks, or in the loop that drains the queue.
pub data EepromTask : Type 0 where
  waiting : EepromTask
  draining : Bool → EepromTask

-- What the tasks share. `log` is the list of the statuses that eeprom_task printed after a save.
pub record Shared : Type 0 where
  pub world : World
  pub has_queue : Bool
  pub queue : List EepromReq
  pub task : EepromTask
  pub log : List ConfigStatus

-- xQueueSend
abbrev pub send : Bool → EepromReq → Shared → Bool × Shared
send posted req s = if posted then (true, record s { queue = s.queue ++ req ∷ [] }) else (false, s)

abbrev is_count : EepromConfigType → Bool
is_count type_count = true
is_count _ = false

unfoldable pub queue_config_change :
    Bool → EepromConfigType → ℕ → ℕ → EepromValue → Shared → Bool × Shared
queue_config_change posted type item param value s =
    if not s.has_queue || is_count type
    then (false, s)
    else send posted (field type item param value) s

unfoldable pub queue_config_commit : Bool → Shared → Bool × Shared
queue_config_commit posted s = if not s.has_queue then (false, s) else send posted commit s

-- After a request: the loop goes on with what is left of the queue.
abbrev pub go_on : Shared → Bool → List EepromReq → Option (Bool × Config) → Option Shared
go_on s dirty rest none = none
go_on s dirty rest (some (more, c)) = some (record s {
  world = record s.world { config = c };
  queue = rest;
  task = draining (dirty || more);
})

abbrev pub after_task_save : Shared → Option (ConfigStatus × World) → Option Shared
after_task_save s none = none
after_task_save s (some (status, w)) =
    some (record s { world = w; task = waiting; log = s.log ++ status ∷ [] })

-- The queue was found empty.
abbrev pub end_round : Bool → Shared → Option Shared
end_round dirty s =
    if dirty then after_task_save s (config_save s.world) else some (record s { task = waiting })

abbrev pub task_turn : EepromTask → List EepromReq → Shared → Option Shared
task_turn waiting [] s = some s
task_turn waiting (req ∷ rest) s = go_on s false rest (process_request s.world.config req)
task_turn (draining dirty) (req ∷ rest) s = go_on s dirty rest (process_request s.world.config req)
task_turn (draining dirty) [] s = end_round dirty s

-- One step of eeprom_task: a receive with what it does with the item, or the end of a round. A
-- task that waits on an empty queue stays.
unfoldable pub task_step : Shared → Option Shared
task_step s = task_turn s.task s.queue s

abbrev pub step_from : Option Shared → Option Shared
step_from none = none
step_from (some s) = task_step s

-- The task alone, for `n` steps.
abbrev pub task_steps : ℕ → Option Shared → Option Shared
task_steps zero o = o
task_steps (suc n) o = task_steps n (step_from o)

-- What any task may do next.
pub data Event : Type 0 where
  change : Bool → EepromConfigType → ℕ → ℕ → EepromValue → Event
  order : Bool → Event
  call : SetCall → Event
  task_runs : Event

unfoldable pub run_event : Event → Shared → Option Shared
unfolding task_step queue_config_change queue_config_commit
run_event (change posted type item param value) s =
    some (queue_config_change posted type item param value s).1
run_event (order posted) s = some (queue_config_commit posted s).1
run_event (call c) s =
    some (record s { world = record s.world { config = (run_call c s.world.config).1 } })
run_event task_runs s = task_step s

abbrev pub run_from : (Shared → Option Shared) → Option Shared → Option Shared
run_from f none = none
run_from f (some s) = f s

unfoldable pub run_events : List Event → Shared → Option Shared
unfolding run_event
run_events [] s = some s
run_events (e ∷ es) s = run_from (run_events es) (run_event e s)
