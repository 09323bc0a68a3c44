-- ===== src/Types/Wire.antt =====
-- What a record can hold on the wire without loss: the ranges of the C types, a name of 16 bytes
-- that ends in a zero, and enums that one byte holds.
use config_wp.Base.{ℕ, ◌^◌, ◌<◌, ◌≡◌, List, length, get_elem?, some}
use config_wp.Base.Int.{InSigned}
use config_wp.Types.{
  DiConfig, DoConfig, TcConfig, AiConfig, AoConfig, PcntConfig, PwmConfig, SystemConfig,
  config_name_len,
}

pub record IsName (n : List ℕ) : Type 0 where
  pub full : length n ≡ config_name_len
  pub terminated : get_elem? n 15 ≡ some 0

pub record IsWireDi (r : DiConfig) : Type 0 where
  pub name : IsName r.name
  pub id : r.id < 2 ^ 16
  pub debounce_ms : r.debounce_ms < 2 ^ 16
  pub polarity : r.polarity < 2 ^ 8
  pub fault_state : r.fault_state < 2 ^ 8

pub record IsWireDo (r : DoConfig) : Type 0 where
  pub name : IsName r.name
  pub id : r.id < 2 ^ 16
  pub polarity : r.polarity < 2 ^ 8
  pub fault_state : r.fault_state < 2 ^ 8

pub record IsWireTc (r : TcConfig) : Type 0 where
  pub name : IsName r.name
  pub id : r.id < 2 ^ 16
  pub tc_type : r.tc_type < 2 ^ 8
  pub unit : r.unit < 2 ^ 8
  pub filter_ms : r.filter_ms < 2 ^ 16
  pub fault_state : r.fault_state < 2 ^ 8
  pub fault_value_c10 : InSigned (2 ^ 15) r.fault_value_c10

pub record IsWireAi (r : AiConfig) : Type 0 where
  pub name : IsName r.name
  pub id : r.id < 2 ^ 16
  pub input_mode : r.input_mode < 2 ^ 8
  pub filter_ms : r.filter_ms < 2 ^ 16
  pub scale_num : InSigned (2 ^ 31) r.scale_num
  pub scale_den : InSigned (2 ^ 31) r.scale_den
  pub offset : InSigned (2 ^ 31) r.offset
  pub fault_state : r.fault_state < 2 ^ 8
  pub fault_value : InSigned (2 ^ 31) r.fault_value

pub record IsWireAo (r : AoConfig) : Type 0 where
  pub name : IsName r.name
  pub id : r.id < 2 ^ 16
  pub output_mode : r.output_mode < 2 ^ 8
  pub slew_per_s : r.slew_per_s < 2 ^ 16
  pub scale_num : InSigned (2 ^ 31) r.scale_num
  pub scale_den : InSigned (2 ^ 31) r.scale_den
  pub offset : InSigned (2 ^ 31) r.offset
  pub fault_state : r.fault_state < 2 ^ 8
  pub fault_value : InSigned (2 ^ 31) r.fault_value

pub record IsWirePcnt (r : PcntConfig) : Type 0 where
  pub name : IsName r.name
  pub id : r.id < 2 ^ 16
  pub mode : r.mode < 2 ^ 8
  pub edge : r.edge < 2 ^ 8
  pub limit : r.limit < 2 ^ 32

pub record IsWirePwm (r : PwmConfig) : Type 0 where
  pub name : IsName r.name
  pub id : r.id < 2 ^ 16
  pub period_us : r.period_us < 2 ^ 32
  pub duty_permille : r.duty_permille < 2 ^ 16
  pub fault_state : r.fault_state < 2 ^ 8
  pub fault_duty_permille : r.fault_duty_permille < 2 ^ 16

pub record IsWireSystem (r : SystemConfig) : Type 0 where
  pub canopen_node_id : r.canopen_node_id < 2 ^ 8
  pub can_bitrate : r.can_bitrate < 2 ^ 8
  pub heartbeat_ms : r.heartbeat_ms < 2 ^ 16
  pub sync_window_us : r.sync_window_us < 2 ^ 32
  pub nmt_startup : r.nmt_startup < 2 ^ 8
  pub producer_emcy_cob_id : r.producer_emcy_cob_id < 2 ^ 32
