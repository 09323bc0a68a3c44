-- ===== src/Tests/Tasks.antt =====
-- Runs of the EEPROM manager: a change of a field, a change that is refused, and a commit.
use config_wp.Base.{
  ℕ, ◌≡◌, ◌⊎◌, refl, true, some, List, [], ◌∷◌, replicate, length-replicate, All-replicate,
}
use config_wp.Base.Int.{pos}
use config_wp.Config.State.{Config, World, config_ok, unknown_buf_bytes}
use config_wp.Config.Defaults.{
  default_cache, di_default, do_default, tc_default, ai_default, ao_default, pcnt_default,
  pwm_default,
}
use config_wp.Config.Validate.{
  name_is_terminated, validate_di, validate_do, validate_tc, validate_ai, validate_ao,
  validate_pcnt, validate_pwm, validate_system,
}
use config_wp.Config.Lifecycle.{config_save}
use config_wp.Config.Boot.{IsRunning}
use config_wp.Slot.{slot_payload_max_bytes}
use config_wp.Config.Access.{got, get_channel, config_get_di}
use config_wp.Eeprom.{EepromValue, change_di}
use config_wp.Eeprom.Requests.{EepromReq, commit, field, io_di, io_pwm, eeprom_round, after_save}
use config_wp.Eeprom.Laws.{IsAccepted}
use config_wp.Eeprom.Progress.{round-Progress}
use config_wp.Eeprom.Start.{eeprom_manager_init, manager_init-IsRunning}
use config_wp.Tests.Manager.{powered_up}

abbrev pub value : ℕ → EepromValue
value n = record { u = n; i = pos n; b = true; s = replicate 16 65 }

-- The id of input 3, then a duty cycle above the maximum, then a commit.
abbrev requests : List EepromReq
requests = field io_di 3 1 (value 7) ∷ field io_pwm 0 3 (value 1001) ∷ commit ∷ []

-- The manager once it is initialised, with the factory defaults.
abbrev pub ready : World
ready = record powered_up { config = record powered_up.config { initialised = true } }

pub ready-IsAccepted : IsAccepted ready.config.cache
unfolding default_cache name_is_terminated validate_di validate_do validate_tc validate_ai
    validate_ao validate_pcnt validate_pwm validate_system
ready-IsAccepted = (
  (refl, All-replicate (λ r. validate_di r ≡ true) 16 di_default refl),
  (refl, All-replicate (λ r. validate_do r ≡ true) 16 do_default refl),
  (refl, All-replicate (λ r. validate_tc r ≡ true) 4 tc_default refl),
  (refl, All-replicate (λ r. validate_ai r ≡ true) 8 ai_default refl),
  (refl, All-replicate (λ r. validate_ao r ≡ true) 4 ao_default refl),
  (refl, All-replicate (λ r. validate_pcnt r ≡ true) 4 pcnt_default refl),
  (refl, All-replicate (λ r. validate_pwm r ≡ true) 4 pwm_default refl),
  refl,
)

round-Progress_example :
    (d : Config) × IsAccepted d.cache
    × ((eeprom_round ready requests ≡ after_save (config_save (record ready { config = d })))
        ⊎ (eeprom_round ready requests ≡ some ready))
round-Progress_example = round-Progress ready requests ready-IsAccepted

manager_init-IsRunning_example :
    (u : World) × (eeprom_manager_init powered_up true ≡ some (config_ok, u))
    × (u.config.cache ≡ default_cache)
    × IsRunning u []
manager_init-IsRunning_example =
    manager_init-IsRunning powered_up refl (length-replicate {A = ℕ} unknown_buf_bytes 0)
      (length-replicate {A = ℕ} slot_payload_max_bytes 0)

reads_default : config_get_di ready.config 3 true ≡ got di_default
unfolding config_get_di get_channel default_cache
reads_default = refl

renumbered_valid : validate_di (record di_default { id = 7 }) ≡ true
unfolding validate_di name_is_terminated
renumbered_valid = refl

renumbers : change_di 1 (value 7) di_default ≡ some (record di_default { id = 7 })
unfolding change_di
renumbers = refl
