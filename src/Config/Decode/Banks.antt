-- ===== src/Config/Decode/Banks.antt =====
-- The seven arrays of the cache as banks, and the system record.
use config_wp.Base.{◌≡◌, refl, some, length, arith, lt→ltb}
use config_wp.Types.{
  config_num_di, config_num_do, config_num_tc, config_num_ai, config_num_ao, config_num_pcnt,
  config_num_pwm, io_domain_di, io_domain_do, io_domain_tc, io_domain_ai, io_domain_ao,
  io_domain_pcnt, io_domain_pwm, SystemConfig,
}
use config_wp.Types.Wire.{IsWireSystem}
use config_wp.Codec.Tag.{config_codec_make_tag, tag_fields, domain_system, system_index}
use config_wp.Codec.Encode.{system_bytes}
use config_wp.Codec.Interface.{
  decode-own, di_codec, do_codec, tc_codec, ai_codec, ao_codec, pcnt_codec, pwm_codec, system_codec,
}
use config_wp.Config.State.{Config, config_ok}
use config_wp.Config.Decode.{
  decode_into_record_locked, with_di, with_do, with_tc, with_ai, with_ao, with_pcnt, with_pwm,
  with_system,
}
use config_wp.Config.Decode.Bank.{Bank}

unfoldable pub di_bank : Bank di_codec
unfolding decode_into_record_locked di_codec
di_bank = record {
  domain = io_domain_di;
  count = config_num_di;
  domain_fits = omega arith;
  count_fits = omega arith;
  size_fits = omega arith;
  field = λ c. c.cache.di;
  put = with_di;
  field-put = λ c xs. refl;
  put-put = λ c xs ys. refl;
  put-field = λ c. refl;
  decodes = λ c i r h wire.
      let (domain, index, fits) = tag_fields io_domain_di i (omega arith) (omega arith) in
      rw (domain, index, lt→ltb i config_num_di h, decode-own di_codec r wire) refl;
}

unfoldable pub do_bank : Bank do_codec
unfolding decode_into_record_locked do_codec
do_bank = record {
  domain = io_domain_do;
  count = config_num_do;
  domain_fits = omega arith;
  count_fits = omega arith;
  size_fits = omega arith;
  field = λ c. c.cache.do_;
  put = with_do;
  field-put = λ c xs. refl;
  put-put = λ c xs ys. refl;
  put-field = λ c. refl;
  decodes = λ c i r h wire.
      let (domain, index, fits) = tag_fields io_domain_do i (omega arith) (omega arith) in
      rw (domain, index, lt→ltb i config_num_do h, decode-own do_codec r wire) refl;
}

unfoldable pub tc_bank : Bank tc_codec
unfolding decode_into_record_locked tc_codec
tc_bank = record {
  domain = io_domain_tc;
  count = config_num_tc;
  domain_fits = omega arith;
  count_fits = omega arith;
  size_fits = omega arith;
  field = λ c. c.cache.tc;
  put = with_tc;
  field-put = λ c xs. refl;
  put-put = λ c xs ys. refl;
  put-field = λ c. refl;
  decodes = λ c i r h wire.
      let (domain, index, fits) = tag_fields io_domain_tc i (omega arith) (omega arith) in
      rw (domain, index, lt→ltb i config_num_tc h, decode-own tc_codec r wire) refl;
}

unfoldable pub ai_bank : Bank ai_codec
unfolding decode_into_record_locked ai_codec
ai_bank = record {
  domain = io_domain_ai;
  count = config_num_ai;
  domain_fits = omega arith;
  count_fits = omega arith;
  size_fits = omega arith;
  field = λ c. c.cache.ai;
  put = with_ai;
  field-put = λ c xs. refl;
  put-put = λ c xs ys. refl;
  put-field = λ c. refl;
  decodes = λ c i r h wire.
      let (domain, index, fits) = tag_fields io_domain_ai i (omega arith) (omega arith) in
      rw (domain, index, lt→ltb i config_num_ai h, decode-own ai_codec r wire) refl;
}

unfoldable pub ao_bank : Bank ao_codec
unfolding decode_into_record_locked ao_codec
ao_bank = record {
  domain = io_domain_ao;
  count = config_num_ao;
  domain_fits = omega arith;
  count_fits = omega arith;
  size_fits = omega arith;
  field = λ c. c.cache.ao;
  put = with_ao;
  field-put = λ c xs. refl;
  put-put = λ c xs ys. refl;
  put-field = λ c. refl;
  decodes = λ c i r h wire.
      let (domain, index, fits) = tag_fields io_domain_ao i (omega arith) (omega arith) in
      rw (domain, index, lt→ltb i config_num_ao h, decode-own ao_codec r wire) refl;
}

unfoldable pub pcnt_bank : Bank pcnt_codec
unfolding decode_into_record_locked pcnt_codec
pcnt_bank = record {
  domain = io_domain_pcnt;
  count = config_num_pcnt;
  domain_fits = omega arith;
  count_fits = omega arith;
  size_fits = omega arith;
  field = λ c. c.cache.pcnt;
  put = with_pcnt;
  field-put = λ c xs. refl;
  put-put = λ c xs ys. refl;
  put-field = λ c. refl;
  decodes = λ c i r h wire.
      let (domain, index, fits) = tag_fields io_domain_pcnt i (omega arith) (omega arith) in
      rw (domain, index, lt→ltb i config_num_pcnt h, decode-own pcnt_codec r wire) refl;
}

unfoldable pub pwm_bank : Bank pwm_codec
unfolding decode_into_record_locked pwm_codec
pwm_bank = record {
  domain = io_domain_pwm;
  count = config_num_pwm;
  domain_fits = omega arith;
  count_fits = omega arith;
  size_fits = omega arith;
  field = λ c. c.cache.pwm;
  put = with_pwm;
  field-put = λ c xs. refl;
  put-put = λ c xs ys. refl;
  put-field = λ c. refl;
  decodes = λ c i r h wire.
      let (domain, index, fits) = tag_fields io_domain_pwm i (omega arith) (omega arith) in
      rw (domain, index, lt→ltb i config_num_pwm h, decode-own pwm_codec r wire) refl;
}

-- The record of the system settings replaces them.
pub system-Replay :
    (c : Config) (r : SystemConfig)
    → IsWireSystem r
    → decode_into_record_locked c
        (config_codec_make_tag domain_system system_index)
        (system_bytes r)
        (length (system_bytes r))
      ≡ some (config_ok, with_system c r)
unfolding decode_into_record_locked system_codec
system-Replay c r wire =
    let (domain, index, fits) = tag_fields domain_system system_index (omega arith) (omega arith) in
    rw (domain, decode-own system_codec r wire) refl
