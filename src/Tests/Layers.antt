-- ===== src/Tests/Layers.antt =====
-- Runs of the TLV layer, the codec, the checksum and the storage driver.
use config_wp.Base.{
  ℕ, ◌≡◌, refl, true, false, some, List, [], ◌∷◌, ◌++◌, length, replicate, inr, arith,
}
use config_wp.Tlv.{
  TlvWriter, tlv_writer_init, tlv_writer_emit, tlv_iter_init, tlv_iter_next, record_at,
  record_bytes, write_u16_le,
}
use config_wp.Tlv.Status.{tlv_ok}
use config_wp.Tlv.Writer.{Holds, init-Holds, emit-Holds}
use config_wp.Tlv.Iter.{behind, next-record, next-Steps, Steps}
use config_wp.Codec.Encode.{
  wrote, config_codec_encode_di, config_codec_encode_do, config_codec_encode_tc,
  config_codec_encode_ai, config_codec_encode_ao, config_codec_encode_pcnt, config_codec_encode_pwm,
  config_codec_encode_system,
}
use config_wp.Codec.Decode.{
  decoded, config_codec_decode_di, config_codec_decode_do, config_codec_decode_tc,
  config_codec_decode_ai, config_codec_decode_ao, config_codec_decode_pcnt, config_codec_decode_pwm,
  config_codec_decode_system,
}
use config_wp.Codec.Laws.{decode-encode}
use config_wp.Config.Defaults.{
  di_default, do_default, tc_default, ai_default, ao_default, pcnt_default, pwm_default,
  system_default,
}
use config_wp.Config.FirstBoot.{
  di_default-IsWire, do_default-IsWire, tc_default-IsWire, ai_default-IsWire, ao_default-IsWire,
  pcnt_default-IsWire, pwm_default-IsWire, system_default-IsWire,
}
use config_wp.Crc32.{Crc32, crc32_init, crc32_step, crc32_compute}
use config_wp.Crc32.Table.{crc_bitwise, step-eq-bitwise}
use config_wp.Storage.{Storage, storage_init, storage_read, storage_write, storage_ok, read_ok}
use config_wp.Storage.Laws.{init-IsReady, read-write}

abbrev eight : TlvWriter
eight = tlv_writer_init (some (replicate 8 0)) 8

emit-Holds_example :
    (w' : TlvWriter) × (tlv_writer_emit eight 0x0103 (some (7 ∷ 9 ∷ [])) 2 ≡ (tlv_ok, w'))
    × Holds w' (record_bytes 0x0103 (7 ∷ 9 ∷ []))
    × (w'.capacity ≡ 8)
emit-Holds_example =
    emit-Holds eight [] 0x0103 (7 ∷ 9 ∷ []) (init-Holds (replicate 8 0) 8 refl) (omega arith)
      (omega arith)

abbrev one_record : List ℕ
one_record = 3 ∷ 1 ∷ 2 ∷ 0 ∷ 7 ∷ 9 ∷ []

next-record_example :
    tlv_iter_next (tlv_iter_init one_record 6)
    ≡ record_at 0x0103 (7 ∷ 9 ∷ []) (behind (tlv_iter_init one_record 6) 2)
unfolding record_bytes write_u16_le
next-record_example =
    next-record (tlv_iter_init one_record 6) 0x0103 (7 ∷ 9 ∷ []) [] refl (omega arith) (omega arith)
      (omega arith)

next-Steps_example : Steps (tlv_iter_init one_record 5) (tlv_iter_next (tlv_iter_init one_record 5))
next-Steps_example = next-Steps (tlv_iter_init one_record 5) (omega arith) (omega arith)

abbrev digits : List ℕ
digits = 49 ∷ 50 ∷ 51 ∷ 52 ∷ 53 ∷ 54 ∷ 55 ∷ 56 ∷ 57 ∷ []

abbrev no_table : Crc32
no_table = record { table = []; table_ready = false }

-- The check value of CRC-32/ISO-HDLC.
check_value : crc32_compute (crc32_init no_table).table digits ≡ 0xcbf43926
unfolding crc32_compute crc32_init
check_value = refl

step-eq-bitwise_example :
    crc32_step (crc32_init no_table).table 0xffffffff (49 ∷ 50 ∷ [])
    ≡ crc_bitwise 0xffffffff (49 ∷ 50 ∷ [])
step-eq-bitwise_example =
    step-eq-bitwise no_table 0xffffffff (49 ∷ 50 ∷ []) (omega arith, (omega arith, tt))

abbrev blank_storage : Storage
blank_storage = (storage_init (record { backing = []; initialised = false })).1

read-write_example :
    (t : Storage) × (storage_write blank_storage 20 (some (1 ∷ 2 ∷ [])) 2 ≡ (storage_ok, t))
    × (storage_read t 20 true 2 ≡ read_ok (1 ∷ 2 ∷ []))
    × (storage_read t 2048 true 16 ≡ storage_read blank_storage 2048 true 16)
read-write_example =
    read-write blank_storage 20 (1 ∷ 2 ∷ []) 2048 16
      (init-IsReady (record { backing = []; initialised = false })) (omega arith) (omega arith)
      (inr (omega arith))

decode-encode_example :
    ((b : List ℕ) × (config_codec_encode_di (some di_default) true 64 true ≡ wrote b 23)
      × (config_codec_decode_di (some (b ++ 1 ∷ [])) (length (b ++ 1 ∷ [])) true
          ≡ decoded di_default))
    × ((b : List ℕ) × (config_codec_encode_do (some do_default) true 64 true ≡ wrote b 20)
        × (config_codec_decode_do (some (b ++ 1 ∷ [])) (length (b ++ 1 ∷ [])) true
            ≡ decoded do_default))
    × ((b : List ℕ) × (config_codec_encode_tc (some tc_default) true 64 true ≡ wrote b 26)
        × (config_codec_decode_tc (some (b ++ 1 ∷ [])) (length (b ++ 1 ∷ [])) true
            ≡ decoded tc_default))
    × ((b : List ℕ) × (config_codec_encode_ai (some ai_default) true 64 true ≡ wrote b 38)
        × (config_codec_decode_ai (some (b ++ 1 ∷ [])) (length (b ++ 1 ∷ [])) true
            ≡ decoded ai_default))
    × ((b : List ℕ) × (config_codec_encode_ao (some ao_default) true 64 true ≡ wrote b 38)
        × (config_codec_decode_ao (some (b ++ 1 ∷ [])) (length (b ++ 1 ∷ [])) true
            ≡ decoded ao_default))
    × ((b : List ℕ) × (config_codec_encode_pcnt (some pcnt_default) true 64 true ≡ wrote b 25)
        × (config_codec_decode_pcnt (some (b ++ 1 ∷ [])) (length (b ++ 1 ∷ [])) true
            ≡ decoded pcnt_default))
    × ((b : List ℕ) × (config_codec_encode_pwm (some pwm_default) true 64 true ≡ wrote b 27)
        × (config_codec_decode_pwm (some (b ++ 1 ∷ [])) (length (b ++ 1 ∷ [])) true
            ≡ decoded pwm_default))
    × ((b : List ℕ) × (config_codec_encode_system (some system_default) true 64 true ≡ wrote b 13)
        × (config_codec_decode_system (some (b ++ 1 ∷ [])) (length (b ++ 1 ∷ [])) true
            ≡ decoded system_default))
decode-encode_example =
    decode-encode 64 (1 ∷ []) (omega arith) di_default do_default tc_default ai_default ao_default
      pcnt_default pwm_default system_default di_default-IsWire do_default-IsWire tc_default-IsWire
      ai_default-IsWire ao_default-IsWire pcnt_default-IsWire pwm_default-IsWire
      system_default-IsWire
