-- ===== src/Codec/Encode.antt =====
-- The encoders. A pointer that may be null is an `Option`, or a test where only its presence counts.
use config_wp.Base.{
  ℕ, Bool, true, false, Option, none, some, List, ◌++◌, ◌&&◌, not, ltb, if◌then◌else◌,
}
use config_wp.Types.{
  DiConfig, DoConfig, TcConfig, AiConfig, AoConfig, PcntConfig, PwmConfig, SystemConfig,
  config_name_len,
}
use config_wp.Tlv.Status.{TlvStatus, tlv_ok, err_no_space, err_buf}
use config_wp.Codec.Cursor.{put_u8, put_u16, put_u32, put_i16, put_i32, put_bytes}

abbrev pub di_wire_size : ℕ
di_wire_size = 23

abbrev pub do_wire_size : ℕ
do_wire_size = 20

abbrev pub tc_wire_size : ℕ
tc_wire_size = 26

abbrev pub ai_wire_size : ℕ
ai_wire_size = 38

abbrev pub ao_wire_size : ℕ
ao_wire_size = 38

abbrev pub pcnt_wire_size : ℕ
pcnt_wire_size = 25

abbrev pub pwm_wire_size : ℕ
pwm_wire_size = 27

abbrev pub system_wire_size : ℕ
system_wire_size = 13

-- The result of an encoder: its status where it refuses, or the bytes at the start of the buffer
-- and `*out_size`.
pub data Encoded : Type 0 where
  failed : TlvStatus → Encoded
  wrote : List ℕ → ℕ → Encoded

unfoldable pub check_encode : Bool → Bool → ℕ → Bool → ℕ → TlvStatus
check_encode has_in has_buf cap has_out_size need =
    if not (has_in && has_buf && has_out_size)
    then err_buf
    else if ltb cap need
    then err_no_space
    else tlv_ok

-- The shape that the encoders share: the check, then the bytes of the record.
unfoldable pub encode_with : {A : Type 0} → ℕ → (A → List ℕ) → Option A → Bool → ℕ → Bool → Encoded
unfolding check_encode
encode_with size body none has_buf cap has_out_size =
    failed (check_encode false has_buf cap has_out_size size)
encode_with size body (some r) has_buf cap has_out_size =
    elim (check_encode true has_buf cap has_out_size size) [
      | tlv_ok ↦ wrote (body r) size
      | refusal ↦ failed refusal
    ]

unfoldable pub di_bytes : DiConfig → List ℕ
di_bytes r =
    put_bytes r.name config_name_len
    ++ (put_u16 r.id
        ++ (put_u16 r.debounce_ms
            ++ (put_u8 r.polarity
                ++ (put_u8 r.fault_state ++ (put_u8 (if r.interrupt_enabled then 1 else 0))))))

unfoldable pub config_codec_encode_di : Option DiConfig → Bool → ℕ → Bool → Encoded
unfolding encode_with
config_codec_encode_di = encode_with di_wire_size di_bytes

unfoldable pub do_bytes : DoConfig → List ℕ
do_bytes r =
    put_bytes r.name config_name_len
    ++ (put_u16 r.id ++ (put_u8 r.polarity ++ (put_u8 r.fault_state)))

unfoldable pub config_codec_encode_do : Option DoConfig → Bool → ℕ → Bool → Encoded
unfolding encode_with
config_codec_encode_do = encode_with do_wire_size do_bytes

unfoldable pub tc_bytes : TcConfig → List ℕ
tc_bytes r =
    put_bytes r.name config_name_len
    ++ (put_u16 r.id
        ++ (put_u8 r.tc_type
            ++ (put_u8 r.unit
                ++ (put_u8 (if r.cjc_enabled then 1 else 0)
                    ++ (put_u16 r.filter_ms
                        ++ (put_u8 r.fault_state ++ (put_i16 r.fault_value_c10)))))))

unfoldable pub config_codec_encode_tc : Option TcConfig → Bool → ℕ → Bool → Encoded
unfolding encode_with
config_codec_encode_tc = encode_with tc_wire_size tc_bytes

unfoldable pub ai_bytes : AiConfig → List ℕ
ai_bytes r =
    put_bytes r.name config_name_len
    ++ (put_u16 r.id
        ++ (put_u8 r.input_mode
            ++ (put_u16 r.filter_ms
                ++ (put_i32 r.scale_num
                    ++ (put_i32 r.scale_den
                        ++ (put_i32 r.offset
                            ++ (put_u8 r.fault_state ++ (put_i32 r.fault_value))))))))

unfoldable pub config_codec_encode_ai : Option AiConfig → Bool → ℕ → Bool → Encoded
unfolding encode_with
config_codec_encode_ai = encode_with ai_wire_size ai_bytes

unfoldable pub ao_bytes : AoConfig → List ℕ
ao_bytes r =
    put_bytes r.name config_name_len
    ++ (put_u16 r.id
        ++ (put_u8 r.output_mode
            ++ (put_u16 r.slew_per_s
                ++ (put_i32 r.scale_num
                    ++ (put_i32 r.scale_den
                        ++ (put_i32 r.offset
                            ++ (put_u8 r.fault_state ++ (put_i32 r.fault_value))))))))

unfoldable pub config_codec_encode_ao : Option AoConfig → Bool → ℕ → Bool → Encoded
unfolding encode_with
config_codec_encode_ao = encode_with ao_wire_size ao_bytes

unfoldable pub pcnt_bytes : PcntConfig → List ℕ
pcnt_bytes r =
    put_bytes r.name config_name_len
    ++ (put_u16 r.id
        ++ (put_u8 r.mode
            ++ (put_u8 r.edge ++ (put_u32 r.limit ++ (put_u8 (if r.reset_on_read then 1 else 0))))))

unfoldable pub config_codec_encode_pcnt : Option PcntConfig → Bool → ℕ → Bool → Encoded
unfolding encode_with
config_codec_encode_pcnt = encode_with pcnt_wire_size pcnt_bytes

unfoldable pub pwm_bytes : PwmConfig → List ℕ
pwm_bytes r =
    put_bytes r.name config_name_len
    ++ (put_u16 r.id
        ++ (put_u32 r.period_us
            ++ (put_u16 r.duty_permille
                ++ (put_u8 r.fault_state ++ (put_u16 r.fault_duty_permille)))))

unfoldable pub config_codec_encode_pwm : Option PwmConfig → Bool → ℕ → Bool → Encoded
unfolding encode_with
config_codec_encode_pwm = encode_with pwm_wire_size pwm_bytes

unfoldable pub system_bytes : SystemConfig → List ℕ
system_bytes r =
    put_u8 r.canopen_node_id
    ++ (put_u8 r.can_bitrate
        ++ (put_u16 r.heartbeat_ms
            ++ (put_u32 r.sync_window_us
                ++ (put_u8 r.nmt_startup ++ (put_u32 r.producer_emcy_cob_id)))))

unfoldable pub config_codec_encode_system : Option SystemConfig → Bool → ℕ → Bool → Encoded
unfolding encode_with
config_codec_encode_system = encode_with system_wire_size system_bytes
