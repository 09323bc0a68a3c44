-- ===== src/Types.antt =====
-- The data model: src/application/config_limits.h and src/application/config_types.h.
-- An enum is the bit pattern of its int, since the decoders cast any byte to it: the ranges are
-- checked by the setters and are no property of the type. A `char name[16]` is the list of its bytes.
pub mod Wire
use config_wp.Base.{ℕ, Bool, List}
use config_wp.Base.Int.{ℤ}

abbrev pub config_name_len : ℕ
config_name_len = 16

abbrev pub config_num_di : ℕ
config_num_di = 16

abbrev pub config_num_do : ℕ
config_num_do = 16

abbrev pub config_num_tc : ℕ
config_num_tc = 4

abbrev pub config_num_ai : ℕ
config_num_ai = 8

abbrev pub config_num_ao : ℕ
config_num_ao = 4

abbrev pub config_num_pcnt : ℕ
config_num_pcnt = 4

abbrev pub config_num_pwm : ℕ
config_num_pwm = 4

-- The `_COUNT` sentinels, and the constants that the defaults name.
abbrev pub fault_state_hold : ℕ
fault_state_hold = 0

abbrev pub fault_state_low : ℕ
fault_state_low = 1

abbrev pub fault_state_count : ℕ
fault_state_count = 3

abbrev pub di_polarity_active_high : ℕ
di_polarity_active_high = 0

abbrev pub di_polarity_count : ℕ
di_polarity_count = 2

abbrev pub do_polarity_active_high : ℕ
do_polarity_active_high = 0

abbrev pub do_polarity_count : ℕ
do_polarity_count = 2

abbrev pub tc_type_k : ℕ
tc_type_k = 0

abbrev pub tc_type_count : ℕ
tc_type_count = 8

abbrev pub tc_unit_celsius : ℕ
tc_unit_celsius = 0

abbrev pub tc_unit_kelvin : ℕ
tc_unit_kelvin = 2

abbrev pub tc_unit_count : ℕ
tc_unit_count = 3

abbrev pub ai_input_mode_voltage_0_10v : ℕ
ai_input_mode_voltage_0_10v = 0

abbrev pub ai_input_mode_count : ℕ
ai_input_mode_count = 3

abbrev pub ao_output_mode_voltage_0_10v : ℕ
ao_output_mode_voltage_0_10v = 0

abbrev pub ao_output_mode_count : ℕ
ao_output_mode_count = 2

abbrev pub pcnt_mode_counter : ℕ
pcnt_mode_counter = 0

abbrev pub pcnt_mode_count : ℕ
pcnt_mode_count = 2

abbrev pub pcnt_edge_rising : ℕ
pcnt_edge_rising = 0

abbrev pub pcnt_edge_count : ℕ
pcnt_edge_count = 3

abbrev pub can_bitrate_500k : ℕ
can_bitrate_500k = 2

abbrev pub can_bitrate_count : ℕ
can_bitrate_count = 4

abbrev pub nmt_startup_wait : ℕ
nmt_startup_wait = 0

abbrev pub nmt_startup_count : ℕ
nmt_startup_count = 2

-- io_domain_t
abbrev pub io_domain_di : ℕ
io_domain_di = 0

abbrev pub io_domain_do : ℕ
io_domain_do = 1

abbrev pub io_domain_tc : ℕ
io_domain_tc = 2

abbrev pub io_domain_ai : ℕ
io_domain_ai = 3

abbrev pub io_domain_ao : ℕ
io_domain_ao = 4

abbrev pub io_domain_pcnt : ℕ
io_domain_pcnt = 5

abbrev pub io_domain_pwm : ℕ
io_domain_pwm = 6

pub record DiConfig : Type 0 where
  pub name : List ℕ
  pub id : ℕ
  pub debounce_ms : ℕ
  pub polarity : ℕ
  pub fault_state : ℕ
  pub interrupt_enabled : Bool

pub record DoConfig : Type 0 where
  pub name : List ℕ
  pub id : ℕ
  pub polarity : ℕ
  pub fault_state : ℕ

pub record TcConfig : Type 0 where
  pub name : List ℕ
  pub id : ℕ
  pub tc_type : ℕ
  pub unit : ℕ
  pub cjc_enabled : Bool
  pub filter_ms : ℕ
  pub fault_state : ℕ
  pub fault_value_c10 : ℤ

pub record AiConfig : Type 0 where
  pub name : List ℕ
  pub id : ℕ
  pub input_mode : ℕ
  pub filter_ms : ℕ
  pub scale_num : ℤ
  pub scale_den : ℤ
  pub offset : ℤ
  pub fault_state : ℕ
  pub fault_value : ℤ

pub record AoConfig : Type 0 where
  pub name : List ℕ
  pub id : ℕ
  pub output_mode : ℕ
  pub slew_per_s : ℕ
  pub scale_num : ℤ
  pub scale_den : ℤ
  pub offset : ℤ
  pub fault_state : ℕ
  pub fault_value : ℤ

pub record PcntConfig : Type 0 where
  pub name : List ℕ
  pub id : ℕ
  pub mode : ℕ
  pub edge : ℕ
  pub limit : ℕ
  pub reset_on_read : Bool

pub record PwmConfig : Type 0 where
  pub name : List ℕ
  pub id : ℕ
  pub period_us : ℕ
  pub duty_permille : ℕ
  pub fault_state : ℕ
  pub fault_duty_permille : ℕ

pub record SystemConfig : Type 0 where
  pub canopen_node_id : ℕ
  pub can_bitrate : ℕ
  pub heartbeat_ms : ℕ
  pub sync_window_us : ℕ
  pub nmt_startup : ℕ
  pub producer_emcy_cob_id : ℕ
