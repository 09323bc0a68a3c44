-- ===== src/Config/Decode.antt =====
-- Decoding a blob into the cache: preserve_unknown_locked, decode_into_record_locked and
-- decode_blob_locked. `none` is a read out of range, or a loop that ran out of fuel.
pub mod Replay
pub mod Bank
pub mod Banks
pub mod Cache
pub mod Total
use config_wp.Base.{
  ℕ, zero, suc, ◌+◌, ◌-◌, Bool, true, false, Option, none, some, List, [], ◌∷◌, ◌++◌, length, take,
  drop, set, ltb, ◌==◌, if◌then◌else◌,
}
use config_wp.Types.{
  config_num_di, config_num_do, config_num_tc, config_num_ai, config_num_ao, config_num_pcnt,
  config_num_pwm, io_domain_di, io_domain_do, io_domain_tc, io_domain_ai, io_domain_ao,
  io_domain_pcnt, io_domain_pwm,
}
use config_wp.Tlv.{
  TlvIter, TlvWriter, record_at, stopped, fault, tlv_iter_init, tlv_iter_next, tlv_writer_init,
  tlv_writer_emit, tlv_writer_size, tlv_header_bytes,
}
use config_wp.Tlv.Status.{TlvStatus, tlv_ok, tlv_end}
use config_wp.Codec.Tag.{domain_system, config_codec_tag_domain, config_codec_tag_index}
use config_wp.Codec.Decode.{
  Decoded, failed, decoded, config_codec_decode_di, config_codec_decode_do, config_codec_decode_tc,
  config_codec_decode_ai, config_codec_decode_ao, config_codec_decode_pcnt, config_codec_decode_pwm,
  config_codec_decode_system,
}
use config_wp.Codec.Decode
use config_wp.Config.State.{Config, ConfigStatus, config_ok, err_codec, unknown_buf_bytes}

-- What the writer over the rest of s_unknown made of it.
abbrev pub stash : Config → TlvStatus × TlvWriter → Config
stash c (tlv_ok, w) = elim w.buf [
  | none ↦ c
  | some mem ↦ record c {
    unknown = take c.unknown_used c.unknown ++ mem;
    unknown_used = c.unknown_used + tlv_writer_size w;
  }
]
stash c (_, w) = c

unfoldable pub preserve_unknown_locked : Config → ℕ → List ℕ → ℕ → Config
preserve_unknown_locked c tag value len =
    if ltb unknown_buf_bytes (c.unknown_used + (tlv_header_bytes + len))
    then c
    else stash c (
        tlv_writer_emit
          (tlv_writer_init (some (drop c.unknown_used c.unknown))
            (unknown_buf_bytes - c.unknown_used))
          tag (some value) len)

-- The record that a decoder stored, or its failure.
abbrev pub store : {A : Type 0} → Config → Decoded A → (A → Config) → Option (ConfigStatus × Config)
store c (failed status) f = some (err_codec, c)
store c Decode.fault f = none
store c (decoded r) f = some (config_ok, f r)

abbrev pub with_di : Config → List config_wp.Types.DiConfig → Config
with_di c xs = record c { cache = record c.cache { di = xs } }

abbrev pub with_do : Config → List config_wp.Types.DoConfig → Config
with_do c xs = record c { cache = record c.cache { do_ = xs } }

abbrev pub with_tc : Config → List config_wp.Types.TcConfig → Config
with_tc c xs = record c { cache = record c.cache { tc = xs } }

abbrev pub with_ai : Config → List config_wp.Types.AiConfig → Config
with_ai c xs = record c { cache = record c.cache { ai = xs } }

abbrev pub with_ao : Config → List config_wp.Types.AoConfig → Config
with_ao c xs = record c { cache = record c.cache { ao = xs } }

abbrev pub with_pcnt : Config → List config_wp.Types.PcntConfig → Config
with_pcnt c xs = record c { cache = record c.cache { pcnt = xs } }

abbrev pub with_pwm : Config → List config_wp.Types.PwmConfig → Config
with_pwm c xs = record c { cache = record c.cache { pwm = xs } }

abbrev pub with_system : Config → config_wp.Types.SystemConfig → Config
with_system c r = record c { cache = record c.cache { system = r } }

-- The switch over the domain, with `index` for each of its cases.
unfoldable pub decode_into_record_locked : Config → ℕ → List ℕ → ℕ → Option (ConfigStatus × Config)
decode_into_record_locked c tag value len =
    let domain = config_codec_tag_domain tag in
    let index = config_codec_tag_index tag in
    let kept : Option (ConfigStatus × Config) =
      some (config_ok, preserve_unknown_locked c tag value len) in
    if domain == io_domain_di
    then if ltb index config_num_di
      then store c (config_codec_decode_di (some value) len true)
          (λ r. with_di c (set c.cache.di index r))
      else kept
    else if domain == io_domain_do
    then if ltb index config_num_do
      then store c (config_codec_decode_do (some value) len true)
          (λ r. with_do c (set c.cache.do_ index r))
      else kept
    else if domain == io_domain_tc
    then if ltb index config_num_tc
      then store c (config_codec_decode_tc (some value) len true)
          (λ r. with_tc c (set c.cache.tc index r))
      else kept
    else if domain == io_domain_ai
    then if ltb index config_num_ai
      then store c (config_codec_decode_ai (some value) len true)
          (λ r. with_ai c (set c.cache.ai index r))
      else kept
    else if domain == io_domain_ao
    then if ltb index config_num_ao
      then store c (config_codec_decode_ao (some value) len true)
          (λ r. with_ao c (set c.cache.ao index r))
      else kept
    else if domain == io_domain_pcnt
    then if ltb index config_num_pcnt
      then store c (config_codec_decode_pcnt (some value) len true)
          (λ r. with_pcnt c (set c.cache.pcnt index r))
      else kept
    else if domain == io_domain_pwm
    then if ltb index config_num_pwm
      then store c (config_codec_decode_pwm (some value) len true)
          (λ r. with_pwm c (set c.cache.pwm index r))
      else kept
    else if domain == domain_system
    then store c (config_codec_decode_system (some value) len true) (with_system c)
    else kept

abbrev pub blob_status : TlvStatus → ConfigStatus
blob_status tlv_end = config_ok
blob_status _ = err_codec

-- A record that was not accepted ends the loop.
abbrev pub after_record :
    Option (ConfigStatus × Config)
    → (Config → Option (ConfigStatus × Config))
    → Option (ConfigStatus × Config)
after_record none rest = none
after_record (some (config_ok, c)) rest = rest c
after_record (some (failure, c)) rest = some (failure, c)

-- The loop over the records, until the stream ends or one fails.
unfoldable pub decode_blob_loop : ℕ → TlvIter → Config → Option (ConfigStatus × Config)
decode_blob_loop zero it c = none
decode_blob_loop (suc fuel) it c = elim (tlv_iter_next it) [
  | stopped status ↦ some (blob_status status, c)
  | fault ↦ none
  | record_at tag value it' ↦
      after_record (decode_into_record_locked c tag value (length value))
        (λ d. decode_blob_loop fuel it' d)
]

-- A record takes four bytes at least, so a round for each byte is more than enough.
unfoldable pub decode_blob_locked : Config → List ℕ → ℕ → Option (ConfigStatus × Config)
unfolding decode_blob_loop
decode_blob_locked c blob len = decode_blob_loop (len + 1) (tlv_iter_init blob len) c
