-- ===== src/Slot.antt =====
-- The A/B slots: src/application/config_slot.h and src/application/config_slot.c. The header's
-- bytes are those of the struct on a little-endian target. The table is the one of crc32_init.
pub mod Header
pub mod Frame
pub mod Active
pub mod Commit
pub mod Torn
pub mod TornHeader
pub mod History
pub mod Boot
pub mod Blank
use config_wp.Base.{
  ℕ, ◌+◌, ◌*◌, ◌%◌, ◌^◌, Bool, true, false, Option, none, some, List, ◌++◌, ltb, leb, ◌==◌, not,
  ◌||◌, ◌&&◌, if◌then◌else◌, take,
}
use config_wp.Codec.Cursor.{Read, ◌>>=◌, pure, put_u16, put_u32, get_u16, get_u32}
use config_wp.Crc32.{crc32_start, crc32_step, crc32_end}
use config_wp.Storage.{
  Storage, StorageRead, StorageStatus, storage_ok, read_ok, read_err, storage_read, storage_write,
}

abbrev pub slot_payload_max_bytes : ℕ
slot_payload_max_bytes = 2028

abbrev pub slot_magic : ℕ
slot_magic = 0xc0fc0fca

abbrev pub slot_format_ver : ℕ
slot_format_ver = 2

abbrev pub slot_header_bytes : ℕ
slot_header_bytes = 20

abbrev pub slot_total_bytes : ℕ
slot_total_bytes = slot_header_bytes + slot_payload_max_bytes

pub data SlotStatus : Type 0 where
  slot_ok err_no_valid err_too_large err_storage err_buf : SlotStatus

pub data SlotId : Type 0 where
  slot_a slot_b : SlotId

pub record SlotHeader : Type 0 where
  pub magic : ℕ
  pub format_ver : ℕ
  pub flags : ℕ
  pub seq : ℕ
  pub length : ℕ
  pub crc32 : ℕ

-- SLOT_OFFSET, and where the payload starts.
abbrev pub slot_offset : SlotId → ℕ
slot_offset slot_a = 0
slot_offset slot_b = slot_total_bytes

abbrev pub payload_off : SlotId → ℕ
payload_off id = slot_offset id + slot_header_bytes

unfoldable pub slot_max_payload : ℕ
slot_max_payload = slot_payload_max_bytes

-- The bytes of the struct before its `crc32`, and all of them.
unfoldable pub header_prefix : SlotHeader → List ℕ
header_prefix h =
    put_u32 h.magic
    ++ (put_u16 h.format_ver ++ (put_u16 h.flags ++ (put_u32 h.seq ++ put_u32 h.length)))

unfoldable pub header_image : SlotHeader → List ℕ
unfolding header_prefix
header_image h = header_prefix h ++ put_u32 h.crc32

unfoldable pub get_header : Read SlotHeader
get_header = do
  magic ← get_u32
  format_ver ← get_u16
  flags ← get_u16
  seq ← get_u32
  len ← get_u32
  crc ← get_u32
  pure (record {
    magic = magic;
    format_ver = format_ver;
    flags = flags;
    seq = seq;
    length = len;
    crc32 = crc;
  })

abbrev pub header_of : Option (SlotHeader × List ℕ) → Option SlotHeader
header_of none = none
header_of (some (h, p)) = some h

-- `none` is a failure of storage_read. (Twenty bytes always hold a header.)
unfoldable pub slot_read_header : Storage → SlotId → Option SlotHeader
slot_read_header s id = elim (storage_read s (slot_offset id) true slot_header_bytes) [
  | read_err status ↦ none
  | read_ok bytes ↦ header_of (get_header bytes)
]

unfoldable pub slot_header_looks_sane : SlotHeader → Bool
slot_header_looks_sane h =
    if not (h.magic == slot_magic)
    then false
    else if not (h.format_ver == slot_format_ver)
    then false
    else if not (h.flags == 0)
    then false
    else if ltb slot_payload_max_bytes h.length
    then false
    else true

-- The checksum of the header's prefix and the payload.
unfoldable pub slot_crc : List ℕ → SlotHeader → List ℕ → ℕ
slot_crc table h payload =
    crc32_end (crc32_step table (crc32_step table crc32_start (header_prefix h)) payload)

-- What the scan of one slot finds: a header that could not be read or a payload that could not;
-- a slot that is not valid; or a valid one.
pub data Scan : Type 0 where
  io_error invalid : Scan
  valid : SlotHeader → Scan

unfoldable pub slot_validate_full : List ℕ → Storage → SlotId → SlotHeader → ℕ → Scan
slot_validate_full table s id h room =
    if not (slot_header_looks_sane h)
    then invalid
    else if ltb room h.length
    then invalid
    else elim (storage_read s (payload_off id) true h.length) [
      | read_err status ↦ io_error
      | read_ok payload ↦ if slot_crc table h payload == h.crc32 then valid h else invalid
    ]

unfoldable pub scan_slot : List ℕ → Storage → ℕ → SlotId → Scan
scan_slot table s room id = elim (slot_read_header s id) [
  | none ↦ io_error
  | some h ↦ slot_validate_full table s id h room
]

-- The result of slot_pick_active: `*out_id` and the `*out_len` bytes at the start of the buffer.
pub data Picked : Type 0 where
  picked : SlotId → List ℕ → Picked
  none_picked : SlotStatus → Picked

abbrev pub reread : Storage → SlotId → SlotHeader → Picked
reread s id h = elim (storage_read s (payload_off id) true h.length) [
  | read_err status ↦ none_picked err_storage
  | read_ok payload ↦ picked id payload
]

abbrev pub pick_winner : Storage → Scan → Scan → Picked
pick_winner s (valid a) (valid b) = if leb b.seq a.seq then reread s slot_a a else reread s slot_b b
pick_winner s (valid a) io_error = reread s slot_a a
pick_winner s (valid a) invalid = reread s slot_a a
pick_winner s io_error (valid b) = reread s slot_b b
pick_winner s invalid (valid b) = reread s slot_b b
pick_winner s io_error io_error = none_picked err_storage
pick_winner s io_error invalid = none_picked err_storage
pick_winner s invalid io_error = none_picked err_storage
pick_winner s invalid invalid = none_picked err_no_valid

unfoldable pub slot_pick_active : List ℕ → Storage → Bool → ℕ → Picked
slot_pick_active table s has_buf room =
    if not has_buf || ltb room slot_payload_max_bytes
    then none_picked err_buf
    else pick_winner s (scan_slot table s room slot_a) (scan_slot table s room slot_b)

-- The header, if it can be read and looks sane.
abbrev pub if_sane : Option SlotHeader → Option SlotHeader
if_sane none = none
if_sane (some h) = if slot_header_looks_sane h then some h else none

unfoldable pub sane_header : Storage → SlotId → Option SlotHeader
sane_header s id = if_sane (slot_read_header s id)

abbrev pub next_seq : SlotHeader → ℕ
next_seq h = (h.seq + 1) % 2 ^ 32

-- The slot to overwrite and the sequence number of the new header.
unfoldable pub slot_target : Option SlotHeader → Option SlotHeader → SlotId × ℕ
slot_target (some a) (some b) =
    if leb b.seq a.seq then (slot_b, next_seq a) else (slot_a, next_seq b)
slot_target (some a) none = (slot_b, next_seq a)
slot_target none (some b) = (slot_a, next_seq b)
slot_target none none = (slot_a, 1)

unfoldable pub new_header : List ℕ → ℕ → List ℕ → ℕ → SlotHeader
new_header table seq payload len =
    let h : SlotHeader = record {
      magic = slot_magic;
      format_ver = slot_format_ver;
      flags = 0;
      seq = seq;
      length = len;
      crc32 = 0;
    } in
    record h { crc32 = slot_crc table h (take len payload) }

abbrev pub write_result : StorageStatus × Storage → SlotStatus × Storage
write_result (storage_ok, s) = (slot_ok, s)
write_result (_, s) = (err_storage, s)

-- Payload first, then the header, which commits it.
abbrev pub write_header : SlotId → SlotHeader → StorageStatus × Storage → SlotStatus × Storage
write_header id h (storage_ok, s) =
    write_result (storage_write s (slot_offset id) (some (header_image h)) slot_header_bytes)
write_header id h (_, s) = (err_storage, s)

abbrev pub write_slot : List ℕ → Storage → List ℕ → ℕ → SlotId × ℕ → SlotStatus × Storage
write_slot table s payload len (target, seq) =
    write_header target (new_header table seq payload len)
      (storage_write s (payload_off target) (some payload) len)

unfoldable pub slot_write : List ℕ → Storage → Option (List ℕ) → ℕ → SlotStatus × Storage
slot_write table s none len = (err_buf, s)
slot_write table s (some payload) len =
    if len == 0
    then (err_buf, s)
    else if ltb slot_payload_max_bytes len
    then (err_too_large, s)
    else write_slot table s payload len (slot_target (sane_header s slot_a) (sane_header s slot_b))
