-- ===== src/Slot/Blank.antt =====
-- The scan of a driver that is set up: every header can be read, and slots without a sane header
-- are not valid.
use config_wp.Base.{
  ℕ, ◌+◌, ◌≤◌, ◌≡◌, refl, ap, ◌∙◌, true, some, none, List, arith, Bool-cases, inl, inr,
}
use config_wp.Base.Splice.{slice, length-slice}
use config_wp.Codec.Cursor.{get_u16, get_u32}
use config_wp.Codec.Total.{Takes, bind-Takes, pure-Takes, u16-Takes, u32-Takes}
use config_wp.Storage.{Storage, storage_bytes}
use config_wp.Storage.Laws.{IsReady, read_in_range}
use config_wp.Slot.{
  SlotHeader, SlotId, slot_a, slot_b, invalid, get_header, header_of, scan_slot, slot_read_header,
  sane_header, slot_offset, slot_header_bytes, slot_header_looks_sane, slot_validate_full,
  slot_pick_active, none_picked, err_no_valid, slot_payload_max_bytes, if_sane,
}
use config_wp.Slot.Frame.{header_read}
use config_wp.Slot.Boot.{IsBlank}

header-Takes : Takes 20 get_header
unfolding get_header
header-Takes = bind-Takes 4 16 get_u32 _ u32-Takes (λ magic.
    bind-Takes 2 14 get_u16 _ u16-Takes (λ format_ver. bind-Takes 2 12 get_u16 _ u16-Takes (λ flags.
      bind-Takes 4 8 get_u32 _ u32-Takes (λ seq.
        bind-Takes 4 4 get_u32 _ u32-Takes
          (λ len. bind-Takes 4 0 get_u32 _ u32-Takes (λ crc. pure-Takes _))))))

header_in_storage : (id : SlotId) → slot_offset id + slot_header_bytes ≤ storage_bytes
header_in_storage slot_a = omega arith
header_in_storage slot_b = omega arith

-- A header can be read from either slot.
pub read_header-IsReady :
    (s : Storage) (id : SlotId) → IsReady s → (h : SlotHeader) × (slot_read_header s id ≡ some h)
unfolding slot_read_header
read_header-IsReady s id r =
    let room = header_in_storage id in
    let bytes = slice (slot_offset id) slot_header_bytes s.backing in
    let (h, q, reads, rest) = header-Takes bytes (
      omega (
        arith,
        length-slice (slot_offset id) slot_header_bytes s.backing (omega (arith, r.size)),
      )) in
    (
      h,
      ap header_read (read_in_range s (slot_offset id) slot_header_bytes r room)
          ∙ ap header_of reads,
    )

-- A slot whose header is not sane is not valid.
pub scan-no_sane :
    (table : List ℕ) (s : Storage) (id : SlotId)
    → IsReady s
    → sane_header s id ≡ none
    → scan_slot table s slot_payload_max_bytes id ≡ invalid
unfolding scan_slot slot_validate_full sane_header
scan-no_sane table s id r blank =
    let (h, present) = read_header-IsReady s id r in
    elim (Bool-cases (slot_header_looks_sane h)) [
      | inl sane ↦ absurd (ground (arith, ap if_sane present))
      | inr insane ↦ rw (present, scan_slot) (rw (insane, slot_validate_full) refl)
    ]

-- Blank storage boots nothing, and is no error of the storage.
pub pick-IsBlank :
    (table : List ℕ) (s : Storage)
    → IsBlank s
    → slot_pick_active table s true slot_payload_max_bytes ≡ none_picked err_no_valid
unfolding slot_pick_active
pick-IsBlank table s b =
    rw (scan-no_sane table s slot_a b.ready b.no_a, scan-no_sane table s slot_b b.ready b.no_b) refl
