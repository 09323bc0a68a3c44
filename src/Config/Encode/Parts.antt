-- ===== src/Config/Encode/Parts.antt =====
-- The part of the payload that each array of the cache writes, its length, and their order.
use config_wp.Base.{ℕ, ◌≡◌, List, ◌++◌, length, arith, length-append}
use config_wp.Types.{
  io_domain_di, io_domain_do, io_domain_tc, io_domain_ai, io_domain_ao, io_domain_pcnt,
  io_domain_pwm,
}
use config_wp.Tlv.{record_bytes}
use config_wp.Tlv.Writer.{length-record_bytes}
use config_wp.Codec.Tag.{domain_system, system_index, config_codec_make_tag}
use config_wp.Codec.Encode.{
  di_bytes, do_bytes, tc_bytes, ai_bytes, ao_bytes, pcnt_bytes, pwm_bytes, system_bytes,
}
use config_wp.Codec.Interface.{
  di_codec, do_codec, tc_codec, ai_codec, ao_codec, pcnt_codec, pwm_codec, system_codec,
}
use config_wp.Config.State.{Cache}
use config_wp.Config.Stream.{
  stream, array_entries, system_entry, cache_entries, IsWireCache, stream-append,
  length-stream_array,
}

module _ (c : Cache) where
  abbrev pub di_part : List ℕ
  di_part = stream (array_entries io_domain_di di_bytes c.di 0)

  abbrev pub do_part : List ℕ
  do_part = stream (array_entries io_domain_do do_bytes c.do_ 0)

  abbrev pub tc_part : List ℕ
  tc_part = stream (array_entries io_domain_tc tc_bytes c.tc 0)

  abbrev pub ai_part : List ℕ
  ai_part = stream (array_entries io_domain_ai ai_bytes c.ai 0)

  abbrev pub ao_part : List ℕ
  ao_part = stream (array_entries io_domain_ao ao_bytes c.ao 0)

  abbrev pub pcnt_part : List ℕ
  pcnt_part = stream (array_entries io_domain_pcnt pcnt_bytes c.pcnt 0)

  abbrev pub pwm_part : List ℕ
  pwm_part = stream (array_entries io_domain_pwm pwm_bytes c.pwm 0)

  abbrev pub system_part : List ℕ
  system_part = stream (system_entry c)

  pub stream-cache_entries :
      stream (cache_entries c)
      ≡ di_part
        ++ (do_part
            ++ (tc_part ++ (ai_part ++ (ao_part ++ (pcnt_part ++ (pwm_part ++ system_part))))))
  unfolding cache_entries
  stream-cache_entries = simp stream-append

module _ (c : Cache) (wire : IsWireCache c) where
  pub length-di_part : length (di_part c) ≡ 432
  unfolding di_codec
  length-di_part =
      omega (arith, length-stream_array di_codec io_domain_di c.di 0 wire.di, wire.di_count)

  pub length-do_part : length (do_part c) ≡ 384
  unfolding do_codec
  length-do_part =
      omega (arith, length-stream_array do_codec io_domain_do c.do_ 0 wire.do_, wire.do_count)

  pub length-tc_part : length (tc_part c) ≡ 120
  unfolding tc_codec
  length-tc_part =
      omega (arith, length-stream_array tc_codec io_domain_tc c.tc 0 wire.tc, wire.tc_count)

  pub length-ai_part : length (ai_part c) ≡ 336
  unfolding ai_codec
  length-ai_part =
      omega (arith, length-stream_array ai_codec io_domain_ai c.ai 0 wire.ai, wire.ai_count)

  pub length-ao_part : length (ao_part c) ≡ 168
  unfolding ao_codec
  length-ao_part =
      omega (arith, length-stream_array ao_codec io_domain_ao c.ao 0 wire.ao, wire.ao_count)

  pub length-pcnt_part : length (pcnt_part c) ≡ 116
  unfolding pcnt_codec
  length-pcnt_part =
      omega
        (arith, length-stream_array pcnt_codec io_domain_pcnt c.pcnt 0 wire.pcnt, wire.pcnt_count)

  pub length-pwm_part : length (pwm_part c) ≡ 124
  unfolding pwm_codec
  length-pwm_part =
      omega (arith, length-stream_array pwm_codec io_domain_pwm c.pwm 0 wire.pwm, wire.pwm_count)

  pub length-system_part : length (system_part c) ≡ 17
  unfolding system_codec
  length-system_part = omega (
    arith,
    length-append
        (record_bytes (config_codec_make_tag domain_system system_index) (system_bytes c.system)) _,
    length-record_bytes (config_codec_make_tag domain_system system_index) (system_bytes c.system),
    system_codec.length-bytes c.system wire.system,
  )

  -- All records of the cache take 1697 bytes.
  pub length-cache_stream : length (stream (cache_entries c)) ≡ 1697
  length-cache_stream = rw (stream-cache_entries c) (
      omega (
        arith,
        length-append (di_part c) _,
        length-append (do_part c) _,
        length-append (tc_part c) _,
        length-append (ai_part c) _,
        length-append (ao_part c) _,
        length-append (pcnt_part c) _,
        length-append (pwm_part c) _,
        length-di_part,
        length-do_part,
        length-tc_part,
        length-ai_part,
        length-ao_part,
        length-pcnt_part,
        length-pwm_part,
        length-system_part,
      ))
