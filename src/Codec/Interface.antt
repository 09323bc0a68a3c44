-- ===== src/Codec/Interface.antt =====
-- What the manager relies on of a record's codec, whichever the type; filled for the eight types.
use config_wp.Base.{
  ap, sym, ◌∙◌, [], append-nil, ℕ, ◌≤◌, ◌≡◌, Bool, true, Option, some, List, ◌++◌, length, le→ltb,
  arith,
}
use config_wp.Types.{
  DiConfig, DoConfig, TcConfig, AiConfig, AoConfig, PcntConfig, PwmConfig, SystemConfig,
}
use config_wp.Types.Wire.{
  IsWireDi, IsWireDo, IsWireTc, IsWireAi, IsWireAo, IsWirePcnt, IsWirePwm, IsWireSystem,
}
use config_wp.Codec.Cursor.{Read}
use config_wp.Codec.Encode
use config_wp.Codec.Decode
use config_wp.Codec.Encode.{
  Encoded, wrote, encode_with, config_codec_encode_di, config_codec_encode_do,
  config_codec_encode_tc, config_codec_encode_ai, config_codec_encode_ao, config_codec_encode_pcnt,
  config_codec_encode_pwm, config_codec_encode_system,
}
use config_wp.Codec.Decode.{
  Decoded, decoded, decode_with, config_codec_decode_di, config_codec_decode_do,
  config_codec_decode_tc, config_codec_decode_ai, config_codec_decode_ao, config_codec_decode_pcnt,
  config_codec_decode_pwm, config_codec_decode_system,
}
use config_wp.Codec.RoundTrip

-- An encoder and a decoder of records of type `A`, and the laws that join them.
pub record LawfulCodec (A : Type 0) : Type 1 where
  pub wire_size : ℕ
  pub encode : Option A → Bool → ℕ → Bool → Encoded
  pub decode : Option (List ℕ) → ℕ → Bool → Decoded A
  pub bytes : A → List ℕ
  pub IsWire : A → Type 0
  pub length-bytes : (r : A) → IsWire r → length (bytes r) ≡ wire_size
  pub encode_ok :
      (r : A) (room : ℕ)
      → wire_size ≤ room
      → encode (some r) true room true ≡ wrote (bytes r) wire_size
  pub decode-bytes :
      (r : A) (p : List ℕ) (len : ℕ)
      → IsWire r
      → wire_size ≤ len
      → decode (some (bytes r ++ p)) len true ≡ decoded r

-- What a codec wrote, it reads back when given just those bytes.
pub decode-own :
    {A : Type 0} (k : LawfulCodec A) (r : A)
    → k.IsWire r
    → k.decode (some (k.bytes r)) (length (k.bytes r)) true ≡ decoded r
decode-own k r h =
    ap (λ (b : List ℕ). k.decode (some b) (length (k.bytes r)) true) (sym (append-nil (k.bytes r)))
    ∙ k.decode-bytes r [] (length (k.bytes r)) h (omega (arith, k.length-bytes r h))

pub encode_with_ok :
    {A : Type 0} (size : ℕ) (body : A → List ℕ) (r : A) (room : ℕ)
    → size ≤ room
    → encode_with size body (some r) true room true ≡ wrote (body r) size
unfolding encode_with
encode_with_ok size body r room h = rw (le→ltb size room h, encode_with)

pub decode_with_ok :
    {A : Type 0} (size : ℕ) (body : Read A) (buf p : List ℕ) (r : A) (len : ℕ)
    → body buf ≡ some (r, p)
    → size ≤ len
    → decode_with size body (some buf) len true ≡ decoded r
unfolding decode_with
decode_with_ok size body buf p r len e h = rw (le→ltb size len h, decode_with) (rw e)

unfoldable pub di_codec : LawfulCodec DiConfig
unfolding config_codec_encode_di config_codec_decode_di
di_codec = record {
  wire_size = Encode.di_wire_size;
  encode = config_codec_encode_di;
  decode = config_codec_decode_di;
  bytes = Encode.di_bytes;
  IsWire = IsWireDi;
  length-bytes = λ r h. RoundTrip.length-di_bytes r h.name;
  encode_ok = encode_with_ok 23 Encode.di_bytes;
  decode-bytes = λ r p len h.
      decode_with_ok 23 Decode.read_di (Encode.di_bytes r ++ p) p r len
        (RoundTrip.read_di-bytes r p h);
}

unfoldable pub do_codec : LawfulCodec DoConfig
unfolding config_codec_encode_do config_codec_decode_do
do_codec = record {
  wire_size = Encode.do_wire_size;
  encode = config_codec_encode_do;
  decode = config_codec_decode_do;
  bytes = Encode.do_bytes;
  IsWire = IsWireDo;
  length-bytes = λ r h. RoundTrip.length-do_bytes r h.name;
  encode_ok = encode_with_ok 20 Encode.do_bytes;
  decode-bytes = λ r p len h.
      decode_with_ok 20 Decode.read_do (Encode.do_bytes r ++ p) p r len
        (RoundTrip.read_do-bytes r p h);
}

unfoldable pub tc_codec : LawfulCodec TcConfig
unfolding config_codec_encode_tc config_codec_decode_tc
tc_codec = record {
  wire_size = Encode.tc_wire_size;
  encode = config_codec_encode_tc;
  decode = config_codec_decode_tc;
  bytes = Encode.tc_bytes;
  IsWire = IsWireTc;
  length-bytes = λ r h. RoundTrip.length-tc_bytes r h.name;
  encode_ok = encode_with_ok 26 Encode.tc_bytes;
  decode-bytes = λ r p len h.
      decode_with_ok 26 Decode.read_tc (Encode.tc_bytes r ++ p) p r len
        (RoundTrip.read_tc-bytes r p h);
}

unfoldable pub ai_codec : LawfulCodec AiConfig
unfolding config_codec_encode_ai config_codec_decode_ai
ai_codec = record {
  wire_size = Encode.ai_wire_size;
  encode = config_codec_encode_ai;
  decode = config_codec_decode_ai;
  bytes = Encode.ai_bytes;
  IsWire = IsWireAi;
  length-bytes = λ r h. RoundTrip.length-ai_bytes r h.name;
  encode_ok = encode_with_ok 38 Encode.ai_bytes;
  decode-bytes = λ r p len h.
      decode_with_ok 38 Decode.read_ai (Encode.ai_bytes r ++ p) p r len
        (RoundTrip.read_ai-bytes r p h);
}

unfoldable pub ao_codec : LawfulCodec AoConfig
unfolding config_codec_encode_ao config_codec_decode_ao
ao_codec = record {
  wire_size = Encode.ao_wire_size;
  encode = config_codec_encode_ao;
  decode = config_codec_decode_ao;
  bytes = Encode.ao_bytes;
  IsWire = IsWireAo;
  length-bytes = λ r h. RoundTrip.length-ao_bytes r h.name;
  encode_ok = encode_with_ok 38 Encode.ao_bytes;
  decode-bytes = λ r p len h.
      decode_with_ok 38 Decode.read_ao (Encode.ao_bytes r ++ p) p r len
        (RoundTrip.read_ao-bytes r p h);
}

unfoldable pub pcnt_codec : LawfulCodec PcntConfig
unfolding config_codec_encode_pcnt config_codec_decode_pcnt
pcnt_codec = record {
  wire_size = Encode.pcnt_wire_size;
  encode = config_codec_encode_pcnt;
  decode = config_codec_decode_pcnt;
  bytes = Encode.pcnt_bytes;
  IsWire = IsWirePcnt;
  length-bytes = λ r h. RoundTrip.length-pcnt_bytes r h.name;
  encode_ok = encode_with_ok 25 Encode.pcnt_bytes;
  decode-bytes = λ r p len h.
      decode_with_ok 25 Decode.read_pcnt (Encode.pcnt_bytes r ++ p) p r len
        (RoundTrip.read_pcnt-bytes r p h);
}

unfoldable pub pwm_codec : LawfulCodec PwmConfig
unfolding config_codec_encode_pwm config_codec_decode_pwm
pwm_codec = record {
  wire_size = Encode.pwm_wire_size;
  encode = config_codec_encode_pwm;
  decode = config_codec_decode_pwm;
  bytes = Encode.pwm_bytes;
  IsWire = IsWirePwm;
  length-bytes = λ r h. RoundTrip.length-pwm_bytes r h.name;
  encode_ok = encode_with_ok 27 Encode.pwm_bytes;
  decode-bytes = λ r p len h.
      decode_with_ok 27 Decode.read_pwm (Encode.pwm_bytes r ++ p) p r len
        (RoundTrip.read_pwm-bytes r p h);
}

unfoldable pub system_codec : LawfulCodec SystemConfig
unfolding config_codec_encode_system config_codec_decode_system
system_codec = record {
  wire_size = Encode.system_wire_size;
  encode = config_codec_encode_system;
  decode = config_codec_decode_system;
  bytes = Encode.system_bytes;
  IsWire = IsWireSystem;
  length-bytes = λ r h. RoundTrip.length-system_bytes r;
  encode_ok = encode_with_ok 13 Encode.system_bytes;
  decode-bytes = λ r p len h.
      decode_with_ok 13 Decode.read_system (Encode.system_bytes r ++ p) p r len
        (RoundTrip.read_system-bytes r p h);
}
