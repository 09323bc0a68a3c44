-- ===== src/Config/Encode/CacheStream.antt =====
-- encode_cache_locked writes the records of the cache: where they fit, all of them in order.
use config_wp.Base.{ℕ, ◌+◌, ◌≤◌, List, [], ◌++◌, length, arith, append-nil, length-append}
use config_wp.Types.{
  io_domain_di, io_domain_do, io_domain_tc, io_domain_ai, io_domain_ao, io_domain_pcnt,
  io_domain_pwm,
}
use config_wp.Tlv.{TlvWriter}
use config_wp.Tlv.Writer.{Holds}
use config_wp.Codec.Tag.{domain_system, system_index}
use config_wp.Codec.Encode.{
  config_codec_encode_di, config_codec_encode_do, config_codec_encode_tc, config_codec_encode_ai,
  config_codec_encode_ao, config_codec_encode_pcnt, config_codec_encode_pwm,
  config_codec_encode_system,
}
use config_wp.Codec.Interface.{
  di_codec, do_codec, tc_codec, ai_codec, ao_codec, pcnt_codec, pwm_codec, system_codec,
}
use config_wp.Config.State.{Cache}
use config_wp.Config.Encode.{Emitted, emit_cache, emit_array, emit_record_locked, and_then}
use config_wp.Config.Encode.Emits.{Emits, and_then-Emits, emit_record-Emits, emit_array-Emits}
use config_wp.Config.Stream.{stream, cache_entries, IsWireCache}
use config_wp.Config.Encode.Parts.{
  stream-cache_entries, di_part, do_part, tc_part, ai_part, ao_part, pcnt_part, pwm_part,
  system_part, length-di_part, length-do_part, length-tc_part, length-ai_part, length-ao_part,
  length-pcnt_part, length-pwm_part,
}

module _ (c : Cache) (wire : IsWireCache c) where
  -- What is left of emit_cache from each array on, and that it appends that array's part and the
  -- later ones.
  abbrev from_system : TlvWriter → Emitted
  from_system w =
      emit_record_locked w domain_system system_index config_codec_encode_system c.system

  abbrev from_pwm : TlvWriter → Emitted
  from_pwm w = and_then (emit_array io_domain_pwm config_codec_encode_pwm c.pwm 0 w) from_system

  abbrev from_pcnt : TlvWriter → Emitted
  from_pcnt w = and_then (emit_array io_domain_pcnt config_codec_encode_pcnt c.pcnt 0 w) from_pwm

  abbrev from_ao : TlvWriter → Emitted
  from_ao w = and_then (emit_array io_domain_ao config_codec_encode_ao c.ao 0 w) from_pcnt

  abbrev from_ai : TlvWriter → Emitted
  from_ai w = and_then (emit_array io_domain_ai config_codec_encode_ai c.ai 0 w) from_ao

  abbrev from_tc : TlvWriter → Emitted
  from_tc w = and_then (emit_array io_domain_tc config_codec_encode_tc c.tc 0 w) from_ai

  abbrev from_do : TlvWriter → Emitted
  from_do w = and_then (emit_array io_domain_do config_codec_encode_do c.do_ 0 w) from_tc

  abbrev from_di : TlvWriter → Emitted
  from_di w = and_then (emit_array io_domain_di config_codec_encode_di c.di 0 w) from_do

  from_system-Emits :
      (w : TlvWriter) (s : List ℕ)
      → Holds w s
      → length s + 17 ≤ w.capacity
      → Emits (from_system w) w s (system_part c)
  unfolding system_codec
  from_system-Emits w s h room = rw append-nil (
      emit_record-Emits system_codec domain_system (omega arith) w s system_index c.system h
        wire.system room)

  from_pwm-Emits :
      (w : TlvWriter) (s : List ℕ)
      → Holds w s
      → length s + 141 ≤ w.capacity
      → Emits (from_pwm w) w s (pwm_part c ++ system_part c)
  unfolding pwm_codec
  from_pwm-Emits w s h room =
      and_then-Emits (emit_array io_domain_pwm config_codec_encode_pwm c.pwm 0 w) from_system w s
        (pwm_part c) (system_part c)
        (emit_array-Emits pwm_codec io_domain_pwm (omega arith) c.pwm w s 0 h wire.pwm
          (omega (arith, length-pwm_part c wire)))
        (λ v hv same.
          from_system-Emits v (s ++ pwm_part c) hv
            (omega (arith, length-append s (pwm_part c), length-pwm_part c wire)))

  from_pcnt-Emits :
      (w : TlvWriter) (s : List ℕ)
      → Holds w s
      → length s + 257 ≤ w.capacity
      → Emits (from_pcnt w) w s (pcnt_part c ++ (pwm_part c ++ system_part c))
  unfolding pcnt_codec
  from_pcnt-Emits w s h room =
      and_then-Emits (emit_array io_domain_pcnt config_codec_encode_pcnt c.pcnt 0 w) from_pwm w s
        (pcnt_part c) (pwm_part c ++ system_part c)
        (emit_array-Emits pcnt_codec io_domain_pcnt (omega arith) c.pcnt w s 0 h wire.pcnt
          (omega (arith, length-pcnt_part c wire)))
        (λ v hv same.
          from_pwm-Emits v (s ++ pcnt_part c) hv
            (omega (arith, length-append s (pcnt_part c), length-pcnt_part c wire)))

  from_ao-Emits :
      (w : TlvWriter) (s : List ℕ)
      → Holds w s
      → length s + 425 ≤ w.capacity
      → Emits (from_ao w) w s (ao_part c ++ (pcnt_part c ++ (pwm_part c ++ system_part c)))
  unfolding ao_codec
  from_ao-Emits w s h room =
      and_then-Emits (emit_array io_domain_ao config_codec_encode_ao c.ao 0 w) from_pcnt w s
        (ao_part c) (pcnt_part c ++ (pwm_part c ++ system_part c))
        (emit_array-Emits ao_codec io_domain_ao (omega arith) c.ao w s 0 h wire.ao
          (omega (arith, length-ao_part c wire)))
        (λ v hv same.
          from_pcnt-Emits v (s ++ ao_part c) hv
            (omega (arith, length-append s (ao_part c), length-ao_part c wire)))

  from_ai-Emits :
      (w : TlvWriter) (s : List ℕ)
      → Holds w s
      → length s + 761 ≤ w.capacity
      → Emits
          (from_ai w)
          w
          s
          (ai_part c ++ (ao_part c ++ (pcnt_part c ++ (pwm_part c ++ system_part c))))
  unfolding ai_codec
  from_ai-Emits w s h room =
      and_then-Emits (emit_array io_domain_ai config_codec_encode_ai c.ai 0 w) from_ao w s
        (ai_part c) (ao_part c ++ (pcnt_part c ++ (pwm_part c ++ system_part c)))
        (emit_array-Emits ai_codec io_domain_ai (omega arith) c.ai w s 0 h wire.ai
          (omega (arith, length-ai_part c wire)))
        (λ v hv same.
          from_ao-Emits v (s ++ ai_part c) hv
            (omega (arith, length-append s (ai_part c), length-ai_part c wire)))

  from_tc-Emits :
      (w : TlvWriter) (s : List ℕ)
      → Holds w s
      → length s + 881 ≤ w.capacity
      → Emits (from_tc w) w s (
          tc_part c ++ (ai_part c ++ (ao_part c ++ (pcnt_part c ++ (pwm_part c ++ system_part c)))))
  unfolding tc_codec
  from_tc-Emits w s h room =
      and_then-Emits (emit_array io_domain_tc config_codec_encode_tc c.tc 0 w) from_ai w s
        (tc_part c) (ai_part c ++ (ao_part c ++ (pcnt_part c ++ (pwm_part c ++ system_part c))))
        (emit_array-Emits tc_codec io_domain_tc (omega arith) c.tc w s 0 h wire.tc
          (omega (arith, length-tc_part c wire)))
        (λ v hv same.
          from_ai-Emits v (s ++ tc_part c) hv
            (omega (arith, length-append s (tc_part c), length-tc_part c wire)))

  from_do-Emits :
      (w : TlvWriter) (s : List ℕ)
      → Holds w s
      → length s + 1265 ≤ w.capacity
      → Emits (from_do w) w s (
          do_part c
          ++ (tc_part c
              ++ (ai_part c ++ (ao_part c ++ (pcnt_part c ++ (pwm_part c ++ system_part c))))))
  unfolding do_codec
  from_do-Emits w s h room =
      and_then-Emits (emit_array io_domain_do config_codec_encode_do c.do_ 0 w) from_tc w s
        (do_part c)
        (tc_part c ++ (ai_part c ++ (ao_part c ++ (pcnt_part c ++ (pwm_part c ++ system_part c)))))
        (emit_array-Emits do_codec io_domain_do (omega arith) c.do_ w s 0 h wire.do_
          (omega (arith, length-do_part c wire)))
        (λ v hv same.
          from_tc-Emits v (s ++ do_part c) hv
            (omega (arith, length-append s (do_part c), length-do_part c wire)))

  from_di-Emits :
      (w : TlvWriter) (s : List ℕ)
      → Holds w s
      → length s + 1697 ≤ w.capacity
      → Emits (from_di w) w s (
          di_part c
          ++ (do_part c
              ++ (tc_part c
                  ++ (ai_part c ++ (ao_part c ++ (pcnt_part c ++ (pwm_part c ++ system_part c)))))))
  unfolding di_codec
  from_di-Emits w s h room =
      and_then-Emits (emit_array io_domain_di config_codec_encode_di c.di 0 w) from_do w s
        (di_part c)
        (do_part c
          ++ (tc_part c
              ++ (ai_part c ++ (ao_part c ++ (pcnt_part c ++ (pwm_part c ++ system_part c))))))
        (emit_array-Emits di_codec io_domain_di (omega arith) c.di w s 0 h wire.di
          (omega (arith, length-di_part c wire)))
        (λ v hv same.
          from_do-Emits v (s ++ di_part c) hv
            (omega (arith, length-append s (di_part c), length-di_part c wire)))

  pub emit_cache-Emits :
      (w : TlvWriter)
      → Holds w []
      → 1697 ≤ w.capacity
      → Emits (emit_cache c w) w [] (stream (cache_entries c))
  unfolding emit_cache
  emit_cache-Emits w h room = rw (stream-cache_entries c) (from_di-Emits w [] h (omega arith))
