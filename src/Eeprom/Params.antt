-- ===== src/Eeprom/Params.antt =====
-- The field ids of src/application/eeprom_manager.h, which the appliers of each type switch over.
use config_wp.Base.{ℕ}

abbrev pub di_param_name : ℕ
di_param_name = 0

abbrev pub di_param_id : ℕ
di_param_id = 1

abbrev pub di_param_debounce_ms : ℕ
di_param_debounce_ms = 2

abbrev pub di_param_polarity : ℕ
di_param_polarity = 3

abbrev pub di_param_fault_state : ℕ
di_param_fault_state = 4

abbrev pub di_param_interrupt_enabled : ℕ
di_param_interrupt_enabled = 5

abbrev pub do_param_name : ℕ
do_param_name = 0

abbrev pub do_param_id : ℕ
do_param_id = 1

abbrev pub do_param_polarity : ℕ
do_param_polarity = 2

abbrev pub do_param_fault_state : ℕ
do_param_fault_state = 3

abbrev pub tc_param_name : ℕ
tc_param_name = 0

abbrev pub tc_param_id : ℕ
tc_param_id = 1

abbrev pub tc_param_tc_type : ℕ
tc_param_tc_type = 2

abbrev pub tc_param_unit : ℕ
tc_param_unit = 3

abbrev pub tc_param_cjc_enabled : ℕ
tc_param_cjc_enabled = 4

abbrev pub tc_param_filter_ms : ℕ
tc_param_filter_ms = 5

abbrev pub tc_param_fault_state : ℕ
tc_param_fault_state = 6

abbrev pub tc_param_fault_value_c10 : ℕ
tc_param_fault_value_c10 = 7

abbrev pub ai_param_name : ℕ
ai_param_name = 0

abbrev pub ai_param_id : ℕ
ai_param_id = 1

abbrev pub ai_param_input_mode : ℕ
ai_param_input_mode = 2

abbrev pub ai_param_filter_ms : ℕ
ai_param_filter_ms = 3

abbrev pub ai_param_scale_num : ℕ
ai_param_scale_num = 4

abbrev pub ai_param_scale_den : ℕ
ai_param_scale_den = 5

abbrev pub ai_param_offset : ℕ
ai_param_offset = 6

abbrev pub ai_param_fault_state : ℕ
ai_param_fault_state = 7

abbrev pub ai_param_fault_value : ℕ
ai_param_fault_value = 8

abbrev pub ao_param_name : ℕ
ao_param_name = 0

abbrev pub ao_param_id : ℕ
ao_param_id = 1

abbrev pub ao_param_output_mode : ℕ
ao_param_output_mode = 2

abbrev pub ao_param_fault_state : ℕ
ao_param_fault_state = 3

abbrev pub ao_param_fault_value : ℕ
ao_param_fault_value = 4

abbrev pub pcnt_param_name : ℕ
pcnt_param_name = 0

abbrev pub pcnt_param_id : ℕ
pcnt_param_id = 1

abbrev pub pcnt_param_mode : ℕ
pcnt_param_mode = 2

abbrev pub pcnt_param_edge : ℕ
pcnt_param_edge = 3

abbrev pub pcnt_param_limit : ℕ
pcnt_param_limit = 4

abbrev pub pcnt_param_reset_on_read : ℕ
pcnt_param_reset_on_read = 5

abbrev pub pwm_param_name : ℕ
pwm_param_name = 0

abbrev pub pwm_param_id : ℕ
pwm_param_id = 1

abbrev pub pwm_param_period_us : ℕ
pwm_param_period_us = 2

abbrev pub pwm_param_duty_permille : ℕ
pwm_param_duty_permille = 3

abbrev pub pwm_param_fault_state : ℕ
pwm_param_fault_state = 4

abbrev pub pwm_param_fault_duty_permille : ℕ
pwm_param_fault_duty_permille = 5

abbrev pub system_param_canopen_node_id : ℕ
system_param_canopen_node_id = 0

abbrev pub system_param_can_bitrate : ℕ
system_param_can_bitrate = 1

abbrev pub system_param_heartbeat_ms : ℕ
system_param_heartbeat_ms = 2

abbrev pub system_param_sync_window_us : ℕ
system_param_sync_window_us = 3

abbrev pub system_param_nmt_startup : ℕ
system_param_nmt_startup = 4

abbrev pub system_param_producer_emcy_cob_id : ℕ
system_param_producer_emcy_cob_id = 5
