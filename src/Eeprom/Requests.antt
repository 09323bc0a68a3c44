-- ===== src/Eeprom/Requests.antt =====
-- The requests of the EEPROM manager: apply_field, process_request and a round of eeprom_task, which
-- drains the queue and saves at most once. A round's argument is the requests that the task takes
-- off the queue before it first finds it empty.
use config_wp.Base.{ℕ, Bool, true, false, Option, some, none, List, [], ◌∷◌, ◌||◌}
use config_wp.Config.State.{Config, ConfigStatus, World, config_ok, err_invalid}
use config_wp.Config.Lifecycle.{config_save}
use config_wp.Eeprom.{
  EepromValue, apply_di, apply_do, apply_tc, apply_ai, apply_ao, apply_pcnt, apply_pwm,
  apply_system,
}

pub data EepromConfigType : Type 0 where
  io_di io_do io_tc io_ai io_ao io_pcnt io_pwm system type_count : EepromConfigType

pub data EepromReq : Type 0 where
  field : EepromConfigType → ℕ → ℕ → EepromValue → EepromReq
  commit : EepromReq

unfoldable pub apply_field :
    Config → EepromConfigType → ℕ → ℕ → EepromValue → Option (ConfigStatus × Config)
apply_field c io_di item param v = apply_di c item param v
apply_field c io_do item param v = apply_do c item param v
apply_field c io_tc item param v = apply_tc c item param v
apply_field c io_ai item param v = apply_ai c item param v
apply_field c io_ao item param v = apply_ao c item param v
apply_field c io_pcnt item param v = apply_pcnt c item param v
apply_field c io_pwm item param v = apply_pwm c item param v
apply_field c system item param v = apply_system c param v
apply_field c type_count item param v = some (err_invalid, c)

-- Whether the request makes the cache dirty.
abbrev pub request_result : Option (ConfigStatus × Config) → Option (Bool × Config)
request_result none = none
request_result (some (config_ok, c)) = some (true, c)
request_result (some (status, c)) = some (false, c)

unfoldable pub process_request : Config → EepromReq → Option (Bool × Config)
process_request c commit = some (true, c)
process_request c (field type item param v) = request_result (apply_field c type item param v)

-- The requests one after the other, with `dirty` so far.
unfoldable pub drain : Bool → Config → List EepromReq → Option (Bool × Config)
drain dirty c [] = some (dirty, c)
drain dirty c (req ∷ reqs) = elim (process_request c req) [
  | none ↦ none
  | some (more, d) ↦ drain (dirty || more) d reqs
]

-- The task ignores the status of the save, but for a message.
abbrev pub after_save : Option (ConfigStatus × World) → Option World
after_save none = none
after_save (some (status, v)) = some v

abbrev pub save_if_dirty : World → Option (Bool × Config) → Option World
save_if_dirty w none = none
save_if_dirty w (some (false, c)) = some (record w { config = c })
save_if_dirty w (some (true, c)) = after_save (config_save (record w { config = c }))

unfoldable pub eeprom_round : World → List EepromReq → Option World
eeprom_round w reqs = save_if_dirty w (drain false w.config reqs)
