-- ===== src/Slot/Header.antt =====
-- The header's image, and what the checks of a header and of a slot tell.
use config_wp.Base.{
  ℕ, ◌≤◌, ◌<◌, ◌^◌, ◌≡◌, refl, true, some, List, [], length, arith, append_assoc, append-nil,
  Option-cases, inl, inr,
}
use config_wp.Codec.Cursor.{◌>>=◌, put_u16, put_u32, get_u16-put_u16, get_u32-put_u32}
use config_wp.Storage.{Storage}
use config_wp.Slot.{
  SlotHeader, SlotId, valid, header_image, get_header, slot_header_looks_sane,
  slot_payload_max_bytes, slot_validate_full, scan_slot, slot_read_header,
}

-- Every field fits its type.
pub record IsHeader (h : SlotHeader) : Type 0 where
  pub magic : h.magic < 2 ^ 32
  pub format_ver : h.format_ver < 2 ^ 16
  pub flags : h.flags < 2 ^ 16
  pub seq : h.seq < 2 ^ 32
  pub len : h.length < 2 ^ 32
  pub crc32 : h.crc32 < 2 ^ 32

pub length-header_image : (h : SlotHeader) → length (header_image h) ≡ 20
unfolding header_image put_u32 put_u16
length-header_image h = refl

pub get_header-header_image :
    (h : SlotHeader) → IsHeader h → get_header (header_image h) ≡ some (h, [])
unfolding get_header header_image
get_header-header_image h r = simp append_assoc (
    rw (
      get_u32-put_u32 h.magic _ r.magic,
      get_u16-put_u16 h.format_ver _ r.format_ver,
      get_u16-put_u16 h.flags _ r.flags,
      get_u32-put_u32 h.seq _ r.seq,
      get_u32-put_u32 h.length _ r.len,
      last,
      ◌>>=◌,
    ))
  where
    last : config_wp.Codec.Cursor.get_u32 (put_u32 h.crc32) ≡ some (h.crc32, [])
    last = rw append-nil at (get_u32-put_u32 h.crc32 [] r.crc32)

pub sane-length :
    (h : SlotHeader) → slot_header_looks_sane h ≡ true → h.length ≤ slot_payload_max_bytes
unfolding slot_header_looks_sane
sane-length h e = ground arith

-- A slot that passes the full validation is sane, and its header is the one that was read.
validated :
    (table : List ℕ) (s : Storage) (room : ℕ) (id : SlotId) (g h : SlotHeader)
    → slot_validate_full table s id g room ≡ valid h
    → (g ≡ h) × (slot_header_looks_sane g ≡ true)
unfolding slot_validate_full
validated table s room id g h e = ground arith

-- A valid slot has a header that can be read and looks sane.
pub valid-inversion :
    (table : List ℕ) (s : Storage) (room : ℕ) (id : SlotId) (h : SlotHeader)
    → scan_slot table s room id ≡ valid h
    → (slot_read_header s id ≡ some h) × (slot_header_looks_sane h ≡ true)
unfolding scan_slot
valid-inversion table s room id h e = elim (Option-cases (slot_read_header s id)) [
  | inl absent ↦ absurd (ground arith)
  | inr (g, present) ↦ ground (arith, validated table s room id g h)
]
