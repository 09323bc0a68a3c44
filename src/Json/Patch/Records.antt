-- ===== src/Json/Patch/Records.antt =====
-- The patchers of the eight records: the fields in the code's order, up to the first that is
-- malformed. A narrower field of the struct casts the word that was read, as in `(uint16_t)u`.
use config_wp.Base.{ℕ, ◌%◌, ◌^◌}
use config_wp.Base.Int.{ℤ, negsuc, pos}
use config_wp.Types.{
  DiConfig, DoConfig, TcConfig, AiConfig, AoConfig, PcntConfig, PwmConfig, SystemConfig,
  config_name_len,
}
use config_wp.Json.{Members}
use config_wp.Json.Enums.{
  Patched, ok, ◌>>=◌, fault_state_from_json, di_polarity_from_json, do_polarity_from_json,
  tc_type_from_json, tc_unit_from_json, ai_input_mode_from_json, ao_output_mode_from_json,
  pcnt_mode_from_json, pcnt_edge_from_json, can_bitrate_from_json, nmt_startup_from_json,
}
use config_wp.Json.Patch.{patch_string, patch_uint, patch_int, patch_bool, patch_enum}

abbrev pub uint8_max : ℕ
uint8_max = 255

abbrev pub uint16_max : ℕ
uint16_max = 65535

abbrev pub uint32_max : ℕ
uint32_max = 4294967295

abbrev pub int16_min : ℤ
int16_min = negsuc 32767

abbrev pub int16_max : ℤ
int16_max = pos 32767

abbrev pub int32_min : ℤ
int32_min = negsuc 2147483647

abbrev pub int32_max : ℤ
int32_max = pos 2147483647

unfoldable pub patch_di_record : Members → DiConfig → Patched DiConfig
patch_di_record obj r = do
  name ← patch_string obj "name" r.name config_name_len
  id ← patch_uint obj "id" r.id uint16_max
  debounce_ms ← patch_uint obj "debounce_ms" r.debounce_ms uint16_max
  polarity ← patch_enum obj "polarity" r.polarity di_polarity_from_json
  fault_state ← patch_enum obj "fault_state" r.fault_state fault_state_from_json
  interrupt_enabled ← patch_bool obj "interrupt_enabled" r.interrupt_enabled
  ok (record {
    name = name;
    id = id % 2 ^ 16;
    debounce_ms = debounce_ms % 2 ^ 16;
    polarity = polarity;
    fault_state = fault_state;
    interrupt_enabled = interrupt_enabled;
  })

unfoldable pub patch_do_record : Members → DoConfig → Patched DoConfig
patch_do_record obj r = do
  name ← patch_string obj "name" r.name config_name_len
  id ← patch_uint obj "id" r.id uint16_max
  polarity ← patch_enum obj "polarity" r.polarity do_polarity_from_json
  fault_state ← patch_enum obj "fault_state" r.fault_state fault_state_from_json
  ok (record { name = name; id = id % 2 ^ 16; polarity = polarity; fault_state = fault_state })

unfoldable pub patch_tc_record : Members → TcConfig → Patched TcConfig
patch_tc_record obj r = do
  name ← patch_string obj "name" r.name config_name_len
  id ← patch_uint obj "id" r.id uint16_max
  tc_type ← patch_enum obj "tc_type" r.tc_type tc_type_from_json
  unit ← patch_enum obj "unit" r.unit tc_unit_from_json
  cjc_enabled ← patch_bool obj "cjc_enabled" r.cjc_enabled
  filter_ms ← patch_uint obj "filter_ms" r.filter_ms uint16_max
  fault_state ← patch_enum obj "fault_state" r.fault_state fault_state_from_json
  fault_value_c10 ← patch_int obj "fault_value_c10" r.fault_value_c10 int16_min int16_max
  ok (record {
    name = name;
    id = id % 2 ^ 16;
    tc_type = tc_type;
    unit = unit;
    cjc_enabled = cjc_enabled;
    filter_ms = filter_ms % 2 ^ 16;
    fault_state = fault_state;
    fault_value_c10 = fault_value_c10;
  })

unfoldable pub patch_ai_record : Members → AiConfig → Patched AiConfig
patch_ai_record obj r = do
  name ← patch_string obj "name" r.name config_name_len
  id ← patch_uint obj "id" r.id uint16_max
  input_mode ← patch_enum obj "input_mode" r.input_mode ai_input_mode_from_json
  filter_ms ← patch_uint obj "filter_ms" r.filter_ms uint16_max
  scale_num ← patch_int obj "scale_num" r.scale_num int32_min int32_max
  scale_den ← patch_int obj "scale_den" r.scale_den int32_min int32_max
  offset ← patch_int obj "offset" r.offset int32_min int32_max
  fault_state ← patch_enum obj "fault_state" r.fault_state fault_state_from_json
  fault_value ← patch_int obj "fault_value" r.fault_value int32_min int32_max
  ok (record {
    name = name;
    id = id % 2 ^ 16;
    input_mode = input_mode;
    filter_ms = filter_ms % 2 ^ 16;
    scale_num = scale_num;
    scale_den = scale_den;
    offset = offset;
    fault_state = fault_state;
    fault_value = fault_value;
  })

unfoldable pub patch_ao_record : Members → AoConfig → Patched AoConfig
patch_ao_record obj r = do
  name ← patch_string obj "name" r.name config_name_len
  id ← patch_uint obj "id" r.id uint16_max
  output_mode ← patch_enum obj "output_mode" r.output_mode ao_output_mode_from_json
  slew_per_s ← patch_uint obj "slew_per_s" r.slew_per_s uint16_max
  scale_num ← patch_int obj "scale_num" r.scale_num int32_min int32_max
  scale_den ← patch_int obj "scale_den" r.scale_den int32_min int32_max
  offset ← patch_int obj "offset" r.offset int32_min int32_max
  fault_state ← patch_enum obj "fault_state" r.fault_state fault_state_from_json
  fault_value ← patch_int obj "fault_value" r.fault_value int32_min int32_max
  ok (record {
    name = name;
    id = id % 2 ^ 16;
    output_mode = output_mode;
    slew_per_s = slew_per_s % 2 ^ 16;
    scale_num = scale_num;
    scale_den = scale_den;
    offset = offset;
    fault_state = fault_state;
    fault_value = fault_value;
  })

unfoldable pub patch_pcnt_record : Members → PcntConfig → Patched PcntConfig
patch_pcnt_record obj r = do
  name ← patch_string obj "name" r.name config_name_len
  id ← patch_uint obj "id" r.id uint16_max
  mode ← patch_enum obj "mode" r.mode pcnt_mode_from_json
  edge ← patch_enum obj "edge" r.edge pcnt_edge_from_json
  limit ← patch_uint obj "limit" r.limit uint32_max
  reset_on_read ← patch_bool obj "reset_on_read" r.reset_on_read
  ok (record {
    name = name;
    id = id % 2 ^ 16;
    mode = mode;
    edge = edge;
    limit = limit;
    reset_on_read = reset_on_read;
  })

unfoldable pub patch_pwm_record : Members → PwmConfig → Patched PwmConfig
patch_pwm_record obj r = do
  name ← patch_string obj "name" r.name config_name_len
  id ← patch_uint obj "id" r.id uint16_max
  period_us ← patch_uint obj "period_us" r.period_us uint32_max
  duty_permille ← patch_uint obj "duty_permille" r.duty_permille uint16_max
  fault_state ← patch_enum obj "fault_state" r.fault_state fault_state_from_json
  fault_duty_permille ← patch_uint obj "fault_duty_permille" r.fault_duty_permille uint16_max
  ok (record {
    name = name;
    id = id % 2 ^ 16;
    period_us = period_us;
    duty_permille = duty_permille % 2 ^ 16;
    fault_state = fault_state;
    fault_duty_permille = fault_duty_permille % 2 ^ 16;
  })

unfoldable pub patch_system_record : Members → SystemConfig → Patched SystemConfig
patch_system_record obj r = do
  canopen_node_id ← patch_uint obj "canopen_node_id" r.canopen_node_id uint8_max
  can_bitrate ← patch_enum obj "can_bitrate" r.can_bitrate can_bitrate_from_json
  heartbeat_ms ← patch_uint obj "heartbeat_ms" r.heartbeat_ms uint16_max
  sync_window_us ← patch_uint obj "sync_window_us" r.sync_window_us uint32_max
  nmt_startup ← patch_enum obj "nmt_startup" r.nmt_startup nmt_startup_from_json
  producer_emcy_cob_id ← patch_uint obj "producer_emcy_cob_id" r.producer_emcy_cob_id uint32_max
  ok (record {
    canopen_node_id = canopen_node_id % 2 ^ 8;
    can_bitrate = can_bitrate;
    heartbeat_ms = heartbeat_ms % 2 ^ 16;
    sync_window_us = sync_window_us;
    nmt_startup = nmt_startup;
    producer_emcy_cob_id = producer_emcy_cob_id;
  })
