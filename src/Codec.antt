-- ===== src/Codec.antt =====
-- The wire codecs of the records: src/application/config_codec.h and src/application/config_codec.c.
pub mod Cursor
pub mod Encode
pub mod Decode
pub mod RoundTrip
pub mod Tag
pub mod Total
pub mod Interface
pub mod Laws
