-- ===== src/Codec/Laws.antt =====
-- The round trip of the codec, for the eight types of records.
use config_wp.Base.{ℕ, ◌≤◌, ◌≡◌, true, some, List, ◌++◌, length, length-append, arith}
use config_wp.Types.{
  DiConfig, DoConfig, TcConfig, AiConfig, AoConfig, PcntConfig, PwmConfig, SystemConfig,
}
use config_wp.Types.Wire.{
  IsWireDi, IsWireDo, IsWireTc, IsWireAi, IsWireAo, IsWirePcnt, IsWirePwm, IsWireSystem,
}
use config_wp.Codec.Encode.{
  wrote, config_codec_encode_di, config_codec_encode_do, config_codec_encode_tc,
  config_codec_encode_ai, config_codec_encode_ao, config_codec_encode_pcnt, config_codec_encode_pwm,
  config_codec_encode_system,
}
use config_wp.Codec.Decode.{
  decoded, config_codec_decode_di, config_codec_decode_do, config_codec_decode_tc,
  config_codec_decode_ai, config_codec_decode_ao, config_codec_decode_pcnt, config_codec_decode_pwm,
  config_codec_decode_system,
}
use config_wp.Codec.Interface.{
  LawfulCodec, di_codec, do_codec, tc_codec, ai_codec, ao_codec, pcnt_codec, pwm_codec,
  system_codec,
}

-- Encoding into enough room gives `size` bytes, and decoding those, whatever follows them, gives
-- the record back.
abbrev pub RoundTrips : {A : Type 0} → LawfulCodec A → A → ℕ → List ℕ → Type 0
RoundTrips k r room p =
    (b : List ℕ) × (k.encode (some r) true room true ≡ wrote b k.wire_size)
    × (length b ≡ k.wire_size)
    × (k.decode (some (b ++ p)) (length (b ++ p)) true ≡ decoded r)

round_trips :
    {A : Type 0} (k : LawfulCodec A) (r : A) (room : ℕ) (p : List ℕ)
    → k.IsWire r
    → k.wire_size ≤ room
    → RoundTrips k r room p
round_trips k r room p h fits = (
  k.bytes r,
  k.encode_ok r room fits,
  k.length-bytes r h,
  k.decode-bytes r p (length (k.bytes r ++ p)) h
      (omega (arith, length-append (k.bytes r) p, k.length-bytes r h)),
)

module _ (room : ℕ) (p : List ℕ) (fits : 38 ≤ room) where
  -- For each of the eight types, a record in the ranges of its C types, with a name that ends in a
  -- zero byte and enums below 256, is encoded into a buffer of 38 bytes or more, to as many bytes
  -- as the type's wire size, and decoding these bytes, whatever bytes follow them, gives the
  -- record back.
  pub decode-encode :
      (di_ : DiConfig) (do_ : DoConfig) (tc_ : TcConfig) (ai_ : AiConfig) (ao_ : AoConfig)
      (pcnt_ : PcntConfig) (pwm_ : PwmConfig) (system_ : SystemConfig)
      → IsWireDi di_
      → IsWireDo do_
      → IsWireTc tc_
      → IsWireAi ai_
      → IsWireAo ao_
      → IsWirePcnt pcnt_
      → IsWirePwm pwm_
      → IsWireSystem system_
      → ((b : List ℕ) × (config_codec_encode_di (some di_) true room true ≡ wrote b 23)
          × (config_codec_decode_di (some (b ++ p)) (length (b ++ p)) true ≡ decoded di_))
        × ((b : List ℕ) × (config_codec_encode_do (some do_) true room true ≡ wrote b 20)
            × (config_codec_decode_do (some (b ++ p)) (length (b ++ p)) true ≡ decoded do_))
        × ((b : List ℕ) × (config_codec_encode_tc (some tc_) true room true ≡ wrote b 26)
            × (config_codec_decode_tc (some (b ++ p)) (length (b ++ p)) true ≡ decoded tc_))
        × ((b : List ℕ) × (config_codec_encode_ai (some ai_) true room true ≡ wrote b 38)
            × (config_codec_decode_ai (some (b ++ p)) (length (b ++ p)) true ≡ decoded ai_))
        × ((b : List ℕ) × (config_codec_encode_ao (some ao_) true room true ≡ wrote b 38)
            × (config_codec_decode_ao (some (b ++ p)) (length (b ++ p)) true ≡ decoded ao_))
        × ((b : List ℕ) × (config_codec_encode_pcnt (some pcnt_) true room true ≡ wrote b 25)
            × (config_codec_decode_pcnt (some (b ++ p)) (length (b ++ p)) true ≡ decoded pcnt_))
        × ((b : List ℕ) × (config_codec_encode_pwm (some pwm_) true room true ≡ wrote b 27)
            × (config_codec_decode_pwm (some (b ++ p)) (length (b ++ p)) true ≡ decoded pwm_))
        × ((b : List ℕ) × (config_codec_encode_system (some system_) true room true ≡ wrote b 13)
            × (config_codec_decode_system (some (b ++ p)) (length (b ++ p)) true ≡ decoded system_))
  unfolding di_codec do_codec tc_codec ai_codec ao_codec pcnt_codec pwm_codec system_codec
  decode-encode di_ do_ tc_ ai_ ao_ pcnt_ pwm_ system_ h_di h_do h_tc h_ai h_ao h_pcnt h_pwm
        h_system =
      let (b_di, enc_di, len_di, dec_di) = round_trips di_codec di_ room p h_di (omega arith) in
      let (b_do, enc_do, len_do, dec_do) = round_trips do_codec do_ room p h_do (omega arith) in
      let (b_tc, enc_tc, len_tc, dec_tc) = round_trips tc_codec tc_ room p h_tc (omega arith) in
      let (b_ai, enc_ai, len_ai, dec_ai) = round_trips ai_codec ai_ room p h_ai (omega arith) in
      let (b_ao, enc_ao, len_ao, dec_ao) = round_trips ao_codec ao_ room p h_ao (omega arith) in
      let (b_pcnt, enc_pcnt, len_pcnt, dec_pcnt) =
        round_trips pcnt_codec pcnt_ room p h_pcnt (omega arith) in
      let (b_pwm, enc_pwm, len_pwm, dec_pwm) =
        round_trips pwm_codec pwm_ room p h_pwm (omega arith) in
      let (b_system, enc_system, len_system, dec_system) =
        round_trips system_codec system_ room p h_system (omega arith) in
      (
        (b_di, enc_di, dec_di),
        (b_do, enc_do, dec_do),
        (b_tc, enc_tc, dec_tc),
        (b_ai, enc_ai, dec_ai),
        (b_ao, enc_ao, dec_ao),
        (b_pcnt, enc_pcnt, dec_pcnt),
        (b_pwm, enc_pwm, dec_pwm),
        (b_system, enc_system, dec_system),
      )
