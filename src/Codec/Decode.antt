-- ===== src/Codec/Decode.antt =====
-- The decoders. `fault` is a read past the end of the memory that the buffer points to.
use config_wp.Base.{
  ℕ, Bool, true, false, Option, none, some, List, set, ◌&&◌, not, ltb, if◌then◌else◌, ◌==◌,
}
use config_wp.Types.{
  DiConfig, DoConfig, TcConfig, AiConfig, AoConfig, PcntConfig, PwmConfig, SystemConfig,
  config_name_len,
}
use config_wp.Tlv.Status.{TlvStatus, tlv_ok, err_truncated, err_buf}
use config_wp.Codec.Cursor.{
  Read, ◌>>=◌, pure, get_u8, get_u16, get_u32, get_i16, get_i32, get_bytes,
}
use config_wp.Codec.Encode.{
  di_wire_size, do_wire_size, tc_wire_size, ai_wire_size, ao_wire_size, pcnt_wire_size,
  pwm_wire_size, system_wire_size,
}

-- On a failure `*out` is left alone.
pub data Decoded (A : Type 0) : Type 0 where
  failed : TlvStatus → Decoded A
  fault : Decoded A
  decoded : A → Decoded A

unfoldable pub check_decode : Bool → Bool → ℕ → ℕ → TlvStatus
check_decode has_buf has_out len need =
    if not (has_buf && has_out) then err_buf else if ltb len need then err_truncated else tlv_ok

abbrev pub run_read : {A : Type 0} → Option (A × List ℕ) → Decoded A
run_read none = fault
run_read (some (a, p)) = decoded a

-- The shape that the decoders share: the check, then the reads from the start of the buffer.
unfoldable pub decode_with : {A : Type 0} → ℕ → Read A → Option (List ℕ) → ℕ → Bool → Decoded A
unfolding check_decode
decode_with size body none len has_out = failed (check_decode false has_out len size)
decode_with size body (some buf) len has_out = elim (check_decode true has_out len size) [
  | tlv_ok ↦ run_read (body buf)
  | refusal ↦ failed refusal
]

-- get_u8(&p) != 0u
unfoldable pub get_bool : Read Bool
unfolding get_u8
get_bool = do v ← get_u8; pure (not (v == 0))

-- The name, with its last byte made a zero.
unfoldable pub get_name : Read (List ℕ)
unfolding get_bytes
get_name = do name ← get_bytes config_name_len; pure (set name 15 0)

unfoldable pub read_di : Read DiConfig
read_di = do
  name_ ← get_name
  id_ ← get_u16
  debounce_ms_ ← get_u16
  polarity_ ← get_u8
  fault_state_ ← get_u8
  interrupt_enabled_ ← get_bool
  pure (record {
    name = name_;
    id = id_;
    debounce_ms = debounce_ms_;
    polarity = polarity_;
    fault_state = fault_state_;
    interrupt_enabled = interrupt_enabled_;
  })

unfoldable pub config_codec_decode_di : Option (List ℕ) → ℕ → Bool → Decoded DiConfig
unfolding decode_with
config_codec_decode_di = decode_with di_wire_size read_di

unfoldable pub read_do : Read DoConfig
read_do = do
  name_ ← get_name
  id_ ← get_u16
  polarity_ ← get_u8
  fault_state_ ← get_u8
  pure (record { name = name_; id = id_; polarity = polarity_; fault_state = fault_state_ })

unfoldable pub config_codec_decode_do : Option (List ℕ) → ℕ → Bool → Decoded DoConfig
unfolding decode_with
config_codec_decode_do = decode_with do_wire_size read_do

unfoldable pub read_tc : Read TcConfig
read_tc = do
  name_ ← get_name
  id_ ← get_u16
  tc_type_ ← get_u8
  unit_ ← get_u8
  cjc_enabled_ ← get_bool
  filter_ms_ ← get_u16
  fault_state_ ← get_u8
  fault_value_c10_ ← get_i16
  pure (record {
    name = name_;
    id = id_;
    tc_type = tc_type_;
    unit = unit_;
    cjc_enabled = cjc_enabled_;
    filter_ms = filter_ms_;
    fault_state = fault_state_;
    fault_value_c10 = fault_value_c10_;
  })

unfoldable pub config_codec_decode_tc : Option (List ℕ) → ℕ → Bool → Decoded TcConfig
unfolding decode_with
config_codec_decode_tc = decode_with tc_wire_size read_tc

unfoldable pub read_ai : Read AiConfig
read_ai = do
  name_ ← get_name
  id_ ← get_u16
  input_mode_ ← get_u8
  filter_ms_ ← get_u16
  scale_num_ ← get_i32
  scale_den_ ← get_i32
  offset_ ← get_i32
  fault_state_ ← get_u8
  fault_value_ ← get_i32
  pure (record {
    name = name_;
    id = id_;
    input_mode = input_mode_;
    filter_ms = filter_ms_;
    scale_num = scale_num_;
    scale_den = scale_den_;
    offset = offset_;
    fault_state = fault_state_;
    fault_value = fault_value_;
  })

unfoldable pub config_codec_decode_ai : Option (List ℕ) → ℕ → Bool → Decoded AiConfig
unfolding decode_with
config_codec_decode_ai = decode_with ai_wire_size read_ai

unfoldable pub read_ao : Read AoConfig
read_ao = do
  name_ ← get_name
  id_ ← get_u16
  output_mode_ ← get_u8
  slew_per_s_ ← get_u16
  scale_num_ ← get_i32
  scale_den_ ← get_i32
  offset_ ← get_i32
  fault_state_ ← get_u8
  fault_value_ ← get_i32
  pure (record {
    name = name_;
    id = id_;
    output_mode = output_mode_;
    slew_per_s = slew_per_s_;
    scale_num = scale_num_;
    scale_den = scale_den_;
    offset = offset_;
    fault_state = fault_state_;
    fault_value = fault_value_;
  })

unfoldable pub config_codec_decode_ao : Option (List ℕ) → ℕ → Bool → Decoded AoConfig
unfolding decode_with
config_codec_decode_ao = decode_with ao_wire_size read_ao

unfoldable pub read_pcnt : Read PcntConfig
read_pcnt = do
  name_ ← get_name
  id_ ← get_u16
  mode_ ← get_u8
  edge_ ← get_u8
  limit_ ← get_u32
  reset_on_read_ ← get_bool
  pure (record {
    name = name_;
    id = id_;
    mode = mode_;
    edge = edge_;
    limit = limit_;
    reset_on_read = reset_on_read_;
  })

unfoldable pub config_codec_decode_pcnt : Option (List ℕ) → ℕ → Bool → Decoded PcntConfig
unfolding decode_with
config_codec_decode_pcnt = decode_with pcnt_wire_size read_pcnt

unfoldable pub read_pwm : Read PwmConfig
read_pwm = do
  name_ ← get_name
  id_ ← get_u16
  period_us_ ← get_u32
  duty_permille_ ← get_u16
  fault_state_ ← get_u8
  fault_duty_permille_ ← get_u16
  pure (record {
    name = name_;
    id = id_;
    period_us = period_us_;
    duty_permille = duty_permille_;
    fault_state = fault_state_;
    fault_duty_permille = fault_duty_permille_;
  })

unfoldable pub config_codec_decode_pwm : Option (List ℕ) → ℕ → Bool → Decoded PwmConfig
unfolding decode_with
config_codec_decode_pwm = decode_with pwm_wire_size read_pwm

unfoldable pub read_system : Read SystemConfig
read_system = do
  canopen_node_id_ ← get_u8
  can_bitrate_ ← get_u8
  heartbeat_ms_ ← get_u16
  sync_window_us_ ← get_u32
  nmt_startup_ ← get_u8
  producer_emcy_cob_id_ ← get_u32
  pure (record {
    canopen_node_id = canopen_node_id_;
    can_bitrate = can_bitrate_;
    heartbeat_ms = heartbeat_ms_;
    sync_window_us = sync_window_us_;
    nmt_startup = nmt_startup_;
    producer_emcy_cob_id = producer_emcy_cob_id_;
  })

unfoldable pub config_codec_decode_system : Option (List ℕ) → ℕ → Bool → Decoded SystemConfig
unfolding decode_with
config_codec_decode_system = decode_with system_wire_size read_system
