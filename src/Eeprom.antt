-- ===== src/Eeprom.antt =====
-- The field appliers of the EEPROM manager: src/application/eeprom_manager.c. A request names a
-- field of a record; the record is read from the cache, changed, and given to its setter.
pub mod Params
pub mod Requests
pub mod Laws
pub mod Progress
pub mod Queue
pub mod Log
pub mod Commit
pub mod Start
pub mod Stored
use config_wp.Base.{
  ℕ, ◌%◌, ◌^◌, Bool, true, Option, some, none, List, set, take, ◌==◌, if◌then◌else◌,
}
use config_wp.Base.Int.{ℤ, of_unsigned, to_unsigned}
use config_wp.Eeprom.Params.{
  di_param_name, di_param_id, di_param_debounce_ms, di_param_polarity, di_param_fault_state,
  di_param_interrupt_enabled, do_param_name, do_param_id, do_param_polarity, do_param_fault_state,
  tc_param_name, tc_param_id, tc_param_tc_type, tc_param_unit, tc_param_cjc_enabled,
  tc_param_filter_ms, tc_param_fault_state, tc_param_fault_value_c10, ai_param_name, ai_param_id,
  ai_param_input_mode, ai_param_filter_ms, ai_param_scale_num, ai_param_scale_den, ai_param_offset,
  ai_param_fault_state, ai_param_fault_value, ao_param_name, ao_param_id, ao_param_output_mode,
  ao_param_fault_state, ao_param_fault_value, pcnt_param_name, pcnt_param_id, pcnt_param_mode,
  pcnt_param_edge, pcnt_param_limit, pcnt_param_reset_on_read, pwm_param_name, pwm_param_id,
  pwm_param_period_us, pwm_param_duty_permille, pwm_param_fault_state,
  pwm_param_fault_duty_permille, system_param_canopen_node_id, system_param_can_bitrate,
  system_param_heartbeat_ms, system_param_sync_window_us, system_param_nmt_startup,
  system_param_producer_emcy_cob_id,
}
use config_wp.Types.{
  DiConfig, DoConfig, TcConfig, AiConfig, AoConfig, PcntConfig, PwmConfig, SystemConfig,
  config_name_len,
}
use config_wp.Config.State.{Config, ConfigStatus, err_invalid}
use config_wp.Config.Access
use config_wp.Config.Access.{
  Got, refused, got, config_get_di, config_set_di, config_get_do, config_set_do, config_get_tc,
  config_set_tc, config_get_ai, config_set_ai, config_get_ao, config_set_ao, config_get_pcnt,
  config_set_pcnt, config_get_pwm, config_set_pwm, config_get_system, config_set_system,
}

-- What each arm of the union reads.
pub record EepromValue : Type 0 where
  pub u : ℕ
  pub i : ℤ
  pub b : Bool
  pub s : List ℕ

-- The name that the function writes.
unfoldable pub copy_name_locked : EepromValue → List ℕ
copy_name_locked v = set (take config_name_len v.s) 15 0

-- The shape that the appliers share: the record from the getter, the switch over the parameter,
-- and the setter. `none` is a read past the array.
abbrev pub apply_changed :
    {A : Type 0} → Config → Option A → (Option A → ConfigStatus × Config) → ConfigStatus × Config
apply_changed c none put = (err_invalid, c)
apply_changed c (some r) put = put (some r)

abbrev pub apply_with :
    {A : Type 0}
    → Config
    → Got A
    → (A → Option A)
    → (Option A → ConfigStatus × Config)
    → Option (ConfigStatus × Config)
apply_with c (refused status) change put = some (status, c)
apply_with c Access.fault change put = none
apply_with c (got r) change put = some (apply_changed c (change r) put)

unfoldable pub change_di : ℕ → EepromValue → DiConfig → Option DiConfig
unfolding copy_name_locked
change_di param v r =
    if param == di_param_name
    then some (record r { name = copy_name_locked v })
    else if param == di_param_id
    then some (record r { id = v.u % 2 ^ 16 })
    else if param == di_param_debounce_ms
    then some (record r { debounce_ms = v.u % 2 ^ 16 })
    else if param == di_param_polarity
    then some (record r { polarity = v.u })
    else if param == di_param_fault_state
    then some (record r { fault_state = v.u })
    else if param == di_param_interrupt_enabled
    then some (record r { interrupt_enabled = v.b })
    else none

unfoldable pub apply_di : Config → ℕ → ℕ → EepromValue → Option (ConfigStatus × Config)
unfolding change_di
apply_di c idx param v =
    apply_with c (config_get_di c idx true) (change_di param v) (config_set_di c idx)

unfoldable pub change_do : ℕ → EepromValue → DoConfig → Option DoConfig
unfolding copy_name_locked
change_do param v r =
    if param == do_param_name
    then some (record r { name = copy_name_locked v })
    else if param == do_param_id
    then some (record r { id = v.u % 2 ^ 16 })
    else if param == do_param_polarity
    then some (record r { polarity = v.u })
    else if param == do_param_fault_state
    then some (record r { fault_state = v.u })
    else none

unfoldable pub apply_do : Config → ℕ → ℕ → EepromValue → Option (ConfigStatus × Config)
unfolding change_do
apply_do c idx param v =
    apply_with c (config_get_do c idx true) (change_do param v) (config_set_do c idx)

unfoldable pub change_tc : ℕ → EepromValue → TcConfig → Option TcConfig
unfolding copy_name_locked
change_tc param v r =
    if param == tc_param_name
    then some (record r { name = copy_name_locked v })
    else if param == tc_param_id
    then some (record r { id = v.u % 2 ^ 16 })
    else if param == tc_param_tc_type
    then some (record r { tc_type = v.u })
    else if param == tc_param_unit
    then some (record r { unit = v.u })
    else if param == tc_param_cjc_enabled
    then some (record r { cjc_enabled = v.b })
    else if param == tc_param_filter_ms
    then some (record r { filter_ms = v.u % 2 ^ 16 })
    else if param == tc_param_fault_state
    then some (record r { fault_state = v.u })
    else if param == tc_param_fault_value_c10
    then some
        (record r { fault_value_c10 = of_unsigned (2 ^ 16) (2 ^ 15) (to_unsigned (2 ^ 16) v.i) })
    else none

unfoldable pub apply_tc : Config → ℕ → ℕ → EepromValue → Option (ConfigStatus × Config)
unfolding change_tc
apply_tc c idx param v =
    apply_with c (config_get_tc c idx true) (change_tc param v) (config_set_tc c idx)

unfoldable pub change_ai : ℕ → EepromValue → AiConfig → Option AiConfig
unfolding copy_name_locked
change_ai param v r =
    if param == ai_param_name
    then some (record r { name = copy_name_locked v })
    else if param == ai_param_id
    then some (record r { id = v.u % 2 ^ 16 })
    else if param == ai_param_input_mode
    then some (record r { input_mode = v.u })
    else if param == ai_param_filter_ms
    then some (record r { filter_ms = v.u % 2 ^ 16 })
    else if param == ai_param_scale_num
    then some (record r { scale_num = v.i })
    else if param == ai_param_scale_den
    then some (record r { scale_den = v.i })
    else if param == ai_param_offset
    then some (record r { offset = v.i })
    else if param == ai_param_fault_state
    then some (record r { fault_state = v.u })
    else if param == ai_param_fault_value
    then some (record r { fault_value = v.i })
    else none

unfoldable pub apply_ai : Config → ℕ → ℕ → EepromValue → Option (ConfigStatus × Config)
unfolding change_ai
apply_ai c idx param v =
    apply_with c (config_get_ai c idx true) (change_ai param v) (config_set_ai c idx)

unfoldable pub change_ao : ℕ → EepromValue → AoConfig → Option AoConfig
unfolding copy_name_locked
change_ao param v r =
    if param == ao_param_name
    then some (record r { name = copy_name_locked v })
    else if param == ao_param_id
    then some (record r { id = v.u % 2 ^ 16 })
    else if param == ao_param_output_mode
    then some (record r { output_mode = v.u })
    else if param == ao_param_fault_state
    then some (record r { fault_state = v.u })
    else if param == ao_param_fault_value
    then some (record r { fault_value = v.i })
    else none

unfoldable pub apply_ao : Config → ℕ → ℕ → EepromValue → Option (ConfigStatus × Config)
unfolding change_ao
apply_ao c idx param v =
    apply_with c (config_get_ao c idx true) (change_ao param v) (config_set_ao c idx)

unfoldable pub change_pcnt : ℕ → EepromValue → PcntConfig → Option PcntConfig
unfolding copy_name_locked
change_pcnt param v r =
    if param == pcnt_param_name
    then some (record r { name = copy_name_locked v })
    else if param == pcnt_param_id
    then some (record r { id = v.u % 2 ^ 16 })
    else if param == pcnt_param_mode
    then some (record r { mode = v.u })
    else if param == pcnt_param_edge
    then some (record r { edge = v.u })
    else if param == pcnt_param_limit
    then some (record r { limit = v.u })
    else if param == pcnt_param_reset_on_read
    then some (record r { reset_on_read = v.b })
    else none

unfoldable pub apply_pcnt : Config → ℕ → ℕ → EepromValue → Option (ConfigStatus × Config)
unfolding change_pcnt
apply_pcnt c idx param v =
    apply_with c (config_get_pcnt c idx true) (change_pcnt param v) (config_set_pcnt c idx)

unfoldable pub change_pwm : ℕ → EepromValue → PwmConfig → Option PwmConfig
unfolding copy_name_locked
change_pwm param v r =
    if param == pwm_param_name
    then some (record r { name = copy_name_locked v })
    else if param == pwm_param_id
    then some (record r { id = v.u % 2 ^ 16 })
    else if param == pwm_param_period_us
    then some (record r { period_us = v.u })
    else if param == pwm_param_duty_permille
    then some (record r { duty_permille = v.u % 2 ^ 16 })
    else if param == pwm_param_fault_state
    then some (record r { fault_state = v.u })
    else if param == pwm_param_fault_duty_permille
    then some (record r { fault_duty_permille = v.u % 2 ^ 16 })
    else none

unfoldable pub apply_pwm : Config → ℕ → ℕ → EepromValue → Option (ConfigStatus × Config)
unfolding change_pwm
apply_pwm c idx param v =
    apply_with c (config_get_pwm c idx true) (change_pwm param v) (config_set_pwm c idx)

unfoldable pub change_system : ℕ → EepromValue → SystemConfig → Option SystemConfig
change_system param v r =
    if param == system_param_canopen_node_id
    then some (record r { canopen_node_id = v.u % 2 ^ 8 })
    else if param == system_param_can_bitrate
    then some (record r { can_bitrate = v.u })
    else if param == system_param_heartbeat_ms
    then some (record r { heartbeat_ms = v.u % 2 ^ 16 })
    else if param == system_param_sync_window_us
    then some (record r { sync_window_us = v.u })
    else if param == system_param_nmt_startup
    then some (record r { nmt_startup = v.u })
    else if param == system_param_producer_emcy_cob_id
    then some (record r { producer_emcy_cob_id = v.u })
    else none

unfoldable pub apply_system : Config → ℕ → EepromValue → Option (ConfigStatus × Config)
unfolding change_system
apply_system c param v =
    apply_with c (config_get_system c true) (change_system param v) (config_set_system c)
