-- ===== src/Tlv.antt =====
-- The generic TLV layer: src/application/tlv.h and src/application/tlv.c.
-- Memory is a list of bytes; a pointer that may be null is an `Option`.
pub mod Status
pub mod Writer
pub mod Iter
use config_wp.Base.{
  ℕ, ◌+◌, ◌*◌, ◌/◌, ◌%◌, ◌^◌, Bool, true, false, Option, none, some, List, [], ◌∷◌, ◌++◌, ltb, leb,
  ◌==◌, length, if◌then◌else◌, take, drop, bit_or, ◌&&◌, not,
}
use config_wp.Base.Splice.{splice, slice}
use config_wp.Tlv.Status.{
  TlvStatus, tlv_ok, tlv_end, err_truncated, err_overrun, err_too_big, err_no_space, err_buf,
}

abbrev pub tlv_header_bytes : ℕ
tlv_header_bytes = 4

-- `none` is a read past the end of the memory.
unfoldable pub read_u16_le : List ℕ → Option ℕ
read_u16_le (b0 ∷ b1 ∷ p) = some (bit_or b0 (b1 * 2 ^ 8))
read_u16_le _ = none

-- The two bytes that the function writes.
unfoldable pub write_u16_le : ℕ → List ℕ
write_u16_le v = v % 2 ^ 8 ∷ v / 2 ^ 8 % 2 ^ 8 ∷ []

pub record TlvIter : Type 0 where
  pub buf : List ℕ
  pub buf_len : ℕ
  pub cursor : ℕ

abbrev pub tlv_iter_init : List ℕ → ℕ → TlvIter
tlv_iter_init buf len = record { buf = buf; buf_len = len; cursor = 0 }

unfoldable pub tlv_iter_done : TlvIter → Bool
tlv_iter_done it = leb it.buf_len it.cursor

-- A call of tlv_iter_next: a status other than TLV_OK, which moves nothing; the tag, the value
-- and the iterator behind it; or a read out of range.
pub data IterStep : Type 0 where
  stopped : TlvStatus → IterStep
  record_at : ℕ → List ℕ → TlvIter → IterStep
  fault : IterStep

abbrev iter_value : TlvIter → ℕ → ℕ → IterStep
iter_value it tag len =
    let value_off = it.cursor + tlv_header_bytes in
    if ltb it.buf_len (value_off + len)
    then stopped err_overrun
    else record_at tag (slice value_off len it.buf) (record it { cursor = value_off + len })

unfoldable pub tlv_iter_next : TlvIter → IterStep
unfolding read_u16_le slice
tlv_iter_next it =
    if it.cursor == it.buf_len
    then stopped tlv_end
    else if ltb it.buf_len (it.cursor + tlv_header_bytes)
    then stopped err_truncated
    else elim (read_u16_le (drop it.cursor it.buf)) [
      | none ↦ fault
      | some tag ↦ elim (read_u16_le (drop (it.cursor + 2) it.buf)) [
        | none ↦ fault
        | some len ↦ iter_value it tag len
      ]
    ]

pub record TlvWriter : Type 0 where
  pub buf : Option (List ℕ)
  pub capacity : ℕ
  pub used : ℕ

abbrev pub tlv_writer_init : Option (List ℕ) → ℕ → TlvWriter
tlv_writer_init buf capacity = record { buf = buf; capacity = capacity; used = 0 }

abbrev pub tlv_writer_size : TlvWriter → ℕ
tlv_writer_size w = w.used

-- `value == NULL && value_len != 0`
abbrev pub is_missing : Option (List ℕ) → ℕ → Bool
is_missing none len = not (len == 0)
is_missing (some v) len = false

-- memcpy(dst, value, len) where `len` is not 0.
abbrev pub copy_value : ℕ → Option (List ℕ) → ℕ → List ℕ → List ℕ
copy_value off none len mem = mem
copy_value off (some v) len mem = if len == 0 then mem else splice off (take len v) mem

abbrev pub emit_into : TlvWriter → List ℕ → ℕ → Option (List ℕ) → ℕ → TlvStatus × TlvWriter
emit_into w mem tag value len =
    if w.capacity == 0
    then (err_buf, w)
    else if is_missing value len
    then (err_buf, w)
    else if ltb 0xffff len
    then (err_too_big, w)
    else if ltb w.capacity (w.used + tlv_header_bytes + len)
    then (err_no_space, w)
    else let tagged = splice w.used (write_u16_le tag) mem in
      let sized = splice (w.used + 2) (write_u16_le (len % 2 ^ 16)) tagged in
      let full = copy_value (w.used + tlv_header_bytes) value len sized in
      (tlv_ok, record w { buf = some full; used = w.used + (tlv_header_bytes + len) })

abbrev pub on_buffer :
    Option (List ℕ) → TlvWriter → (List ℕ → TlvStatus × TlvWriter) → TlvStatus × TlvWriter
on_buffer none w f = (err_buf, w)
on_buffer (some mem) w f = f mem

unfoldable pub tlv_writer_emit : TlvWriter → ℕ → Option (List ℕ) → ℕ → TlvStatus × TlvWriter
tlv_writer_emit w tag value len = on_buffer w.buf w (λ mem. emit_into w mem tag value len)

-- The checks of a raw record that do not read it, then its own length field.
abbrev pub emit_raw_into : TlvWriter → List ℕ → Option (List ℕ) → ℕ → Option (TlvStatus × TlvWriter)
emit_raw_into w mem none total = some (err_buf, w)
emit_raw_into w mem (some src) total =
    if w.capacity == 0
    then some (err_buf, w)
    else if ltb total tlv_header_bytes
    then some (err_buf, w)
    else elim (read_u16_le (drop 2 src)) [
      | none ↦ none
      | some len ↦
          if not (tlv_header_bytes + len == total)
          then some (err_overrun, w)
          else if ltb w.capacity (w.used + total)
          then some (err_no_space, w)
          else some (
            tlv_ok,
            record w { buf = some (splice w.used (take total src) mem); used = w.used + total },
          )
    ]

abbrev pub raw_on_buffer :
    Option (List ℕ)
    → TlvWriter
    → (List ℕ → Option (TlvStatus × TlvWriter))
    → Option (TlvStatus × TlvWriter)
raw_on_buffer none w f = some (err_buf, w)
raw_on_buffer (some mem) w f = f mem

-- `none` is a read past the end of the record's memory.
unfoldable pub tlv_writer_emit_raw :
    TlvWriter → Option (List ℕ) → ℕ → Option (TlvStatus × TlvWriter)
tlv_writer_emit_raw w src total = raw_on_buffer w.buf w (λ mem. emit_raw_into w mem src total)

-- The wire format of one record, which the theorems are about.
unfoldable pub record_bytes : ℕ → List ℕ → List ℕ
record_bytes tag v = write_u16_le tag ++ (write_u16_le (length v) ++ v)
