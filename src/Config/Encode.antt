-- ===== src/Config/Encode.antt =====
-- Encoding the cache into a blob: emit_record_locked and encode_cache_locked.
pub mod Emits
pub mod Parts
pub mod CacheStream
pub mod Preserved
pub mod Blob
use config_wp.Base.{
  ℕ, zero, suc, ◌+◌, Bool, true, false, Option, none, some, List, [], ◌∷◌, ltb, not, drop, take,
  if◌then◌else◌,
}
use config_wp.Types.{
  io_domain_di, io_domain_do, io_domain_tc, io_domain_ai, io_domain_ao, io_domain_pcnt,
  io_domain_pwm,
}
use config_wp.Tlv.{
  TlvWriter, tlv_writer_init, tlv_writer_emit, tlv_writer_emit_raw, tlv_writer_size,
  tlv_header_bytes, read_u16_le,
}
use config_wp.Tlv.Status.{TlvStatus, tlv_ok, err_no_space}
use config_wp.Codec.Tag.{domain_system, system_index, config_codec_make_tag}
use config_wp.Codec.Encode.{
  Encoded, failed, wrote, config_codec_encode_di, config_codec_encode_do, config_codec_encode_tc,
  config_codec_encode_ai, config_codec_encode_ao, config_codec_encode_pcnt, config_codec_encode_pwm,
  config_codec_encode_system,
}
use config_wp.Config.State.{Cache, Config, ConfigStatus, config_ok, err_codec, err_too_large}

abbrev pub EncodeValueFn : Type 0 → Type 0
EncodeValueFn A = Option A → Bool → ℕ → Bool → Encoded

abbrev pub Emitted : Type 0
Emitted = ConfigStatus × TlvWriter

abbrev pub emit_status : TlvStatus × TlvWriter → Emitted
emit_status (tlv_ok, w) = (config_ok, w)
emit_status (err_no_space, w) = (err_too_large, w)
emit_status (_, w) = (err_codec, w)

abbrev pub value_buf_bytes : ℕ
value_buf_bytes = 64

-- The value's bytes, behind a header with its tag.
unfoldable pub emit_record_locked : {A : Type 0} → TlvWriter → ℕ → ℕ → EncodeValueFn A → A → Emitted
emit_record_locked w domain index enc r = elim (enc (some r) true value_buf_bytes true) [
  | failed status ↦ (err_codec, w)
  | wrote value size ↦
      emit_status (tlv_writer_emit w (config_codec_make_tag domain index) (some value) size)
]

-- The next part of the encoding, where the one before succeeded.
abbrev pub and_then : Emitted → (TlvWriter → Emitted) → Emitted
and_then (config_ok, w) f = f w
and_then (failure, w) f = (failure, w)

-- The loop over one array, from index `i`.
unfoldable pub emit_array : {A : Type 0} → ℕ → EncodeValueFn A → List A → ℕ → TlvWriter → Emitted
emit_array domain enc [] i w = (config_ok, w)
emit_array domain enc (r ∷ rs) i w =
    let rest = emit_array domain enc rs (i + 1) in
    and_then (emit_record_locked w domain i enc r) rest

-- The loops over the arrays, then the system record.
unfoldable pub emit_cache : Cache → TlvWriter → Emitted
emit_cache c w0 = and_then (emit_array io_domain_di config_codec_encode_di c.di 0 w0) λ w1.
    and_then (emit_array io_domain_do config_codec_encode_do c.do_ 0 w1) λ w2.
      and_then (emit_array io_domain_tc config_codec_encode_tc c.tc 0 w2) λ w3.
        and_then (emit_array io_domain_ai config_codec_encode_ai c.ai 0 w3) λ w4.
          and_then (emit_array io_domain_ao config_codec_encode_ao c.ao 0 w4) λ w5.
            and_then (emit_array io_domain_pcnt config_codec_encode_pcnt c.pcnt 0 w5) λ w6.
              and_then (emit_array io_domain_pwm config_codec_encode_pwm c.pwm 0 w6) λ w7.
                emit_record_locked w7 domain_system system_index config_codec_encode_system c.system

-- The loop over s_unknown; `none` is a read out of range, or fuel that ran out.
unfoldable pub emit_unknown_loop : ℕ → List ℕ → ℕ → ℕ → TlvWriter → Option Emitted
emit_unknown_loop zero unknown used cursor w = none
emit_unknown_loop (suc fuel) unknown used cursor w =
    let done : Option Emitted = some (config_ok, w) in
    let again =
      λ (total : ℕ) (v : TlvWriter). emit_unknown_loop fuel unknown used (cursor + total) v in
    if not (ltb cursor used)
    then done
    else if ltb used (cursor + tlv_header_bytes)
    then done
    else elim (read_u16_le (drop (cursor + 2) unknown)) [
      | none ↦ none
      | some len ↦
          if ltb used (cursor + (tlv_header_bytes + len))
          then done
          else elim (tlv_writer_emit_raw w (some (drop cursor unknown)) (tlv_header_bytes + len)) [
            | none ↦ none
            | some (status, v) ↦ elim status [
              | tlv_ok ↦ again (tlv_header_bytes + len) v
              | err_no_space ↦ some (err_too_large, v)
              | _ ↦ some (err_codec, v)
            ]
          ]
    ]

abbrev pub emit_unknown : Config → Emitted → Option Emitted
emit_unknown c (config_ok, w) = emit_unknown_loop (c.unknown_used + 1) c.unknown c.unknown_used 0 w
emit_unknown c (failure, w) = some (failure, w)

abbrev pub buffer_or : List ℕ → Option (List ℕ) → List ℕ
buffer_or mem none = mem
buffer_or mem (some full) = full

-- The status, the state with s_blob_buf as it is written, and `*out_size`.
abbrev pub finish_blob : Config → Option Emitted → Option (ConfigStatus × Config × ℕ)
finish_blob c none = none
finish_blob c (some (status, w)) =
    some (status, record c { blob_buf = buffer_or c.blob_buf w.buf }, tlv_writer_size w)

unfoldable pub encode_cache_locked : Config → ℕ → Option (ConfigStatus × Config × ℕ)
encode_cache_locked c room =
    finish_blob c (emit_unknown c (emit_cache c.cache (tlv_writer_init (some c.blob_buf) room)))
