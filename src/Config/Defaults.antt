-- ===== src/Config/Defaults.antt =====
-- The factory defaults: src/application/config_defaults.c, and load_defaults_locked.
use config_wp.Base.{ℕ, true, false, List, replicate}
use config_wp.Base.Int.{pos}
use config_wp.Config.State.{Cache, Config}
use config_wp.Types.{
  DiConfig, DoConfig, TcConfig, AiConfig, AoConfig, PcntConfig, PwmConfig, SystemConfig,
  config_name_len, config_num_di, config_num_do, config_num_tc, config_num_ai, config_num_ao,
  config_num_pcnt, config_num_pwm, fault_state_hold, fault_state_low, di_polarity_active_high,
  do_polarity_active_high, tc_type_k, tc_unit_celsius, ai_input_mode_voltage_0_10v,
  ao_output_mode_voltage_0_10v, pcnt_mode_counter, pcnt_edge_rising, can_bitrate_500k,
  nmt_startup_wait,
}

-- The array that `""` initialises.
abbrev pub empty_name : List ℕ
empty_name = replicate config_name_len 0

abbrev pub di_default : DiConfig
di_default = record {
  name = empty_name;
  id = 0;
  debounce_ms = 10;
  polarity = di_polarity_active_high;
  fault_state = fault_state_hold;
  interrupt_enabled = false;
}

abbrev pub do_default : DoConfig
do_default = record {
  name = empty_name;
  id = 0;
  polarity = do_polarity_active_high;
  fault_state = fault_state_low;
}

abbrev pub tc_default : TcConfig
tc_default = record {
  name = empty_name;
  id = 0;
  tc_type = tc_type_k;
  unit = tc_unit_celsius;
  cjc_enabled = true;
  filter_ms = 100;
  fault_state = fault_state_hold;
  fault_value_c10 = pos 0;
}

abbrev pub ai_default : AiConfig
ai_default = record {
  name = empty_name;
  id = 0;
  input_mode = ai_input_mode_voltage_0_10v;
  filter_ms = 10;
  scale_num = pos 1;
  scale_den = pos 1;
  offset = pos 0;
  fault_state = fault_state_hold;
  fault_value = pos 0;
}

abbrev pub ao_default : AoConfig
ao_default = record {
  name = empty_name;
  id = 0;
  output_mode = ao_output_mode_voltage_0_10v;
  slew_per_s = 0;
  scale_num = pos 1;
  scale_den = pos 1;
  offset = pos 0;
  fault_state = fault_state_low;
  fault_value = pos 0;
}

abbrev pub pcnt_default : PcntConfig
pcnt_default = record {
  name = empty_name;
  id = 0;
  mode = pcnt_mode_counter;
  edge = pcnt_edge_rising;
  limit = 0;
  reset_on_read = false;
}

abbrev pub pwm_default : PwmConfig
pwm_default = record {
  name = empty_name;
  id = 0;
  period_us = 10000;
  duty_permille = 0;
  fault_state = fault_state_low;
  fault_duty_permille = 0;
}

abbrev pub system_default : SystemConfig
system_default = record {
  canopen_node_id = 1;
  can_bitrate = can_bitrate_500k;
  heartbeat_ms = 1000;
  sync_window_us = 1000;
  nmt_startup = nmt_startup_wait;
  producer_emcy_cob_id = 0;
}

unfoldable pub default_cache : Cache
default_cache = record {
  di = replicate config_num_di di_default;
  do_ = replicate config_num_do do_default;
  tc = replicate config_num_tc tc_default;
  ai = replicate config_num_ai ai_default;
  ao = replicate config_num_ao ao_default;
  pcnt = replicate config_num_pcnt pcnt_default;
  pwm = replicate config_num_pwm pwm_default;
  system = system_default;
}

unfoldable pub load_defaults_locked : Config → Config
load_defaults_locked c = record c { cache = default_cache; unknown_used = 0 }
