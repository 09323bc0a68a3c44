-- ===== src/Codec/Tag.antt =====
-- The tags of records, `domain << 8 | index`: src/application/config_codec.h.
use config_wp.Base.{ℕ, ◌*◌, ◌/◌, ◌%◌, ◌^◌, ◌<◌, ◌≡◌, bit_or, arith}
use config_wp.Base.Bits.{bit_or_fields_high}

abbrev pub domain_system : ℕ
domain_system = 0xf0

abbrev pub system_index : ℕ
system_index = 0

unfoldable pub config_codec_make_tag : ℕ → ℕ → ℕ
config_codec_make_tag domain index = bit_or (domain * 2 ^ 8) index % 2 ^ 16

unfoldable pub config_codec_tag_domain : ℕ → ℕ
config_codec_tag_domain tag = tag / 2 ^ 8 % 2 ^ 8

unfoldable pub config_codec_tag_index : ℕ → ℕ
config_codec_tag_index tag = tag % 2 ^ 8

module _ (domain index : ℕ) (fits_domain : domain < 2 ^ 8) (fits_index : index < 2 ^ 8) where
  -- A tag made of an 8-bit domain and an 8-bit index is a 16-bit number, and gives both back.
  pub tag_fields :
      (config_codec_tag_domain (config_codec_make_tag domain index) ≡ domain)
      × (config_codec_tag_index (config_codec_make_tag domain index) ≡ index)
      × (config_codec_make_tag domain index < 2 ^ 16)
  unfolding config_codec_tag_domain config_codec_tag_index config_codec_make_tag
  tag_fields =
      rw (bit_or_fields_high 8 domain index fits_index) (omega arith, omega arith, omega arith)
