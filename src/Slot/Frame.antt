-- ===== src/Slot/Frame.antt =====
-- A slot is judged by reads of its own half of the storage alone.
use config_wp.Base.{
  ℕ, ◌+◌, ◌≤◌, ◌≡◌, inl, inr, refl, ap, ◌∙◌, true, Option, none, List, length, arith, Bool-cases,
  Option-cases, if◌then◌else◌, ◌==◌,
}
use config_wp.Storage.{Storage, StorageRead, read_ok, read_err, storage_read}
use config_wp.Storage.Laws.{IsReady, stored, write_effect}
use config_wp.Slot.{
  SlotHeader, SlotId, slot_a, slot_b, Scan, valid, io_error, invalid, header_of, get_header,
  slot_header_looks_sane, slot_validate_full, scan_slot, slot_read_header, sane_header, if_sane,
  slot_offset, payload_off, slot_crc, slot_total_bytes, slot_header_bytes, reread, Picked,
  none_picked, picked, err_storage,
}
use config_wp.Slot.Header.{sane-length}

-- Reads within the half of slot `id` give the same in both storages.
abbrev pub SameSlot : Storage → Storage → SlotId → Type 0
SameSlot s t id =
    (o n : ℕ)
    → slot_offset id ≤ o
    → o + n ≤ slot_offset id + slot_total_bytes
    → storage_read t o true n ≡ storage_read s o true n

abbrev pub other : SlotId → SlotId
other slot_a = slot_b
other slot_b = slot_a

-- Bytes written within the other half.
pub other-SameSlot :
    (s : Storage) (id : SlotId) (off : ℕ) (bytes : List ℕ)
    → IsReady s
    → slot_offset (other id) ≤ off
    → off + length bytes ≤ slot_offset (other id) + slot_total_bytes
    → SameSlot s (stored s off bytes) id
other-SameSlot s slot_a off bytes h lo hi o n lo' hi' =
    (write_effect s off bytes h (omega arith)).2 o n (omega arith) (inl (omega arith))
other-SameSlot s slot_b off bytes h lo hi o n lo' hi' =
    (write_effect s off bytes h (omega arith)).2 o n (omega arith) (inr (omega arith))

-- Bytes written within a slot's own half leave the other slot alone.
pub own-SameSlot :
    (s : Storage) (id : SlotId) (off : ℕ) (bytes : List ℕ)
    → IsReady s
    → slot_offset id ≤ off
    → off + length bytes ≤ slot_offset id + slot_total_bytes
    → SameSlot s (stored s off bytes) (other id)
own-SameSlot s slot_a off bytes h lo hi = other-SameSlot s slot_b off bytes h lo hi
own-SameSlot s slot_b off bytes h lo hi = other-SameSlot s slot_a off bytes h lo hi

pub SameSlot-trans :
    (s t u : Storage) (id : SlotId) → SameSlot s t id → SameSlot t u id → SameSlot s u id
SameSlot-trans s t u id h k o n lo hi = k o n lo hi ∙ h o n lo hi

abbrev pub header_read : StorageRead → Option SlotHeader
header_read r = elim r [ read_err status ↦ none | read_ok bytes ↦ header_of (get_header bytes) ]

abbrev pub checked : List ℕ → SlotHeader → StorageRead → Scan
checked table h r = elim r [
  | read_err status ↦ io_error
  | read_ok payload ↦ if slot_crc table h payload == h.crc32 then valid h else invalid
]

abbrev pub rereads : SlotId → StorageRead → Picked
rereads id r = elim r [
  | read_err status ↦ none_picked err_storage
  | read_ok payload ↦ picked id payload
]

module _ (s t : Storage) (id : SlotId) (same : SameSlot s t id) where
  pub read_header-frame : slot_read_header t id ≡ slot_read_header s id
  unfolding slot_read_header
  read_header-frame =
      ap header_read (same (slot_offset id) slot_header_bytes (omega arith) (omega arith))

  pub sane_header-frame : sane_header t id ≡ sane_header s id
  unfolding sane_header
  sane_header-frame = ap if_sane read_header-frame

  payload-frame :
      (h : SlotHeader)
      → slot_header_looks_sane h ≡ true
      → storage_read t (payload_off id) true h.length
        ≡ storage_read s (payload_off id) true h.length
  payload-frame h sane =
      same (payload_off id) h.length (omega arith) (omega (arith, sane-length h sane))

  pub reread-frame :
      (h : SlotHeader) → slot_header_looks_sane h ≡ true → reread t id h ≡ reread s id h
  reread-frame h sane = ap (rereads id) (payload-frame h sane)

  validate-frame :
      (table : List ℕ) (h : SlotHeader) (room : ℕ)
      → slot_validate_full table t id h room ≡ slot_validate_full table s id h room
  unfolding slot_validate_full
  validate-frame table h room = elim (Bool-cases (slot_header_looks_sane h)) [
    | inl sane ↦ rw (payload-frame h sane) refl
    | inr insane ↦ rw insane refl
  ]

  pub scan-frame :
      (table : List ℕ) (room : ℕ) → scan_slot table t room id ≡ scan_slot table s room id
  unfolding scan_slot
  scan-frame table room = elim (Option-cases (slot_read_header s id)) [
    | inl absent ↦ rw (read_header-frame, absent, scan_slot) refl
    | inr (h, present) ↦ rw (read_header-frame, present, scan_slot) (validate-frame table h room)
  ]
