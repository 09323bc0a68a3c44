-- ===== src/Config/Stream.antt =====
-- The blob that config_save writes, as a list of tagged values; what the theorems are stated over.
use config_wp.Base.{
  ℕ, ◌+◌, ◌*◌, ◌^◌, ◌<◌, ◌≡◌, refl, ap, sym, ◌∙◌, List, [], ◌∷◌, ◌++◌, length, All, arith,
  length-append, append_assoc,
}
use config_wp.Types.{
  io_domain_di, io_domain_do, io_domain_tc, io_domain_ai, io_domain_ao, io_domain_pcnt,
  io_domain_pwm, config_num_di, config_num_do, config_num_tc, config_num_ai, config_num_ao,
  config_num_pcnt, config_num_pwm,
}
use config_wp.Types.Wire.{
  IsWireDi, IsWireDo, IsWireTc, IsWireAi, IsWireAo, IsWirePcnt, IsWirePwm, IsWireSystem,
}
use config_wp.Tlv.{record_bytes}
use config_wp.Tlv.Writer.{length-record_bytes}
use config_wp.Codec.Tag.{domain_system, system_index, config_codec_make_tag}
use config_wp.Codec.Encode.{
  di_bytes, do_bytes, tc_bytes, ai_bytes, ao_bytes, pcnt_bytes, pwm_bytes, system_bytes,
}
use config_wp.Codec.Interface.{LawfulCodec}
use config_wp.Config.State.{Cache}

-- A tag and a value.
abbrev pub Entry : Type 0
Entry = ℕ × List ℕ

abbrev pub IsEntry : Entry → Type 0
IsEntry (tag, v) = (tag < 2 ^ 16) × (length v < 2 ^ 16)

abbrev pub stream : List Entry → List ℕ
stream [] = []
stream ((tag, v) ∷ es) = record_bytes tag v ++ stream es

abbrev pub array_entries : {A : Type 0} → ℕ → (A → List ℕ) → List A → ℕ → List Entry
array_entries domain bytes [] i = []
array_entries domain bytes (r ∷ rs) i =
    (config_codec_make_tag domain i, bytes r) ∷ array_entries domain bytes rs (i + 1)

abbrev pub system_entry : Cache → List Entry
system_entry c = (config_codec_make_tag domain_system system_index, system_bytes c.system) ∷ []

-- The records of a cache, in the order of encode_cache_locked.
unfoldable pub cache_entries : Cache → List Entry
cache_entries c =
    array_entries io_domain_di di_bytes c.di 0
    ++ (array_entries io_domain_do do_bytes c.do_ 0
        ++ (array_entries io_domain_tc tc_bytes c.tc 0
            ++ (array_entries io_domain_ai ai_bytes c.ai 0
                ++ (array_entries io_domain_ao ao_bytes c.ao 0
                    ++ (array_entries io_domain_pcnt pcnt_bytes c.pcnt 0
                        ++ (array_entries io_domain_pwm pwm_bytes c.pwm 0 ++ system_entry c))))))

-- Every array is full, and every record is one that the wire format holds without loss.
pub record IsWireCache (c : Cache) : Type 0 where
  pub di_count : length c.di ≡ config_num_di
  pub do_count : length c.do_ ≡ config_num_do
  pub tc_count : length c.tc ≡ config_num_tc
  pub ai_count : length c.ai ≡ config_num_ai
  pub ao_count : length c.ao ≡ config_num_ao
  pub pcnt_count : length c.pcnt ≡ config_num_pcnt
  pub pwm_count : length c.pwm ≡ config_num_pwm
  pub di : All IsWireDi c.di
  pub do_ : All IsWireDo c.do_
  pub tc : All IsWireTc c.tc
  pub ai : All IsWireAi c.ai
  pub ao : All IsWireAo c.ao
  pub pcnt : All IsWirePcnt c.pcnt
  pub pwm : All IsWirePwm c.pwm
  pub system : IsWireSystem c.system

pub stream-append : (es fs : List Entry) → stream (es ++ fs) ≡ stream es ++ stream fs
stream-append [] fs = refl
stream-append ((tag, v) ∷ es) fs =
    ap (λ (s : List ℕ). record_bytes tag v ++ s) (stream-append es fs)
    ∙ sym (append_assoc (record_bytes tag v) (stream es) (stream fs))

pub length-stream_array :
    {A : Type 0} (k : LawfulCodec A) (domain : ℕ) (rs : List A) (i : ℕ)
    → All k.IsWire rs
    → length (stream (array_entries domain k.bytes rs i)) ≡ length rs * (4 + k.wire_size)
length-stream_array k domain [] i h = omega arith
length-stream_array k domain (r ∷ rs) i h = omega (
  arith,
  length-append (record_bytes (config_codec_make_tag domain i) (k.bytes r))
      (stream (array_entries domain k.bytes rs (i + 1))),
  length-record_bytes (config_codec_make_tag domain i) (k.bytes r),
  k.length-bytes r h.0,
  length-stream_array k domain rs (i + 1) h.1,
)
