-- ===== src/Tlv/Writer.antt =====
-- The writer refines appending to a stream of bytes, and refuses without a change.
use config_wp.Base.{
  ℕ, suc, ◌+◌, ◌%◌, ◌/◌, ◌^◌, ◌≤◌, ◌<◌, ◌≡◌, refl, ap, sym, ◌∙◌, false, Option, some, List, [], ◌∷◌,
  ◌++◌, length, take, drop, arith, append-nil, append_assoc, ◌==◌, le→ltb, lt→ltb, length-append,
  take_all, ne→==, eq→==, drop-append, take-append,
}
use config_wp.Base.Bits.{bit_or_fields}
use config_wp.Base.Splice.{splice, length-splice, take-splice}
use config_wp.Tlv.Status.{tlv_ok, err_no_space}
use config_wp.Tlv.{
  TlvWriter, tlv_writer_init, tlv_writer_emit, tlv_writer_emit_raw, emit_into, copy_value,
  on_buffer, raw_on_buffer, emit_raw_into, record_bytes, write_u16_le, read_u16_le,
}

-- The writer's buffer has its capacity, and what is written so far is the stream `s`.
pub record Holds (w : TlvWriter) (s : List ℕ) : Type 0 where
  pub mem : List ℕ
  pub buf : w.buf ≡ some mem
  pub size : length mem ≡ w.capacity
  pub used : w.used ≡ length s
  pub fits : w.used ≤ w.capacity
  pub written : take w.used mem ≡ s

pub init-Holds :
    (mem : List ℕ) (room : ℕ) → length mem ≡ room → Holds (tlv_writer_init (some mem) room) []
init-Holds mem room h = record {
  mem = mem;
  buf = refl;
  size = h;
  used = refl;
  fits = omega arith;
  written = refl;
}

nonzero : (n : ℕ) → (suc n == 0) ≡ false
nonzero n = ground arith

-- The value's copy, an empty one included.
copy_value_lem :
    (off : ℕ) (v mem : List ℕ)
    → off + length v ≤ length mem
    → (take (off + length v) (copy_value off (some v) (length v) mem) ≡ take off mem ++ v)
      × (length (copy_value off (some v) (length v) mem) ≡ length mem)
copy_value_lem off [] mem h =
    (sym (append-nil (take off mem) ∙ ap (λ (n : ℕ). take n mem) (omega arith)), refl)
copy_value_lem off (x ∷ v) mem h =
    rw (take_all (length (x ∷ v)) (x ∷ v) (omega arith), nonzero (length v))
      (
        take-splice off (off + length (x ∷ v)) (x ∷ v) mem (omega arith) refl,
        length-splice off (x ∷ v) mem (omega arith),
      )

-- The three writes of a record put its bytes behind what is there.
abbrev emitted : ℕ → ℕ → List ℕ → List ℕ → List ℕ
emitted used tag v mem =
    copy_value (used + 4) (some v) (length v)
      (splice (used + 2) (write_u16_le (length v % 2 ^ 16)) (splice used (write_u16_le tag) mem))

length-write_u16_le : (v : ℕ) → length (write_u16_le v) ≡ 2
unfolding write_u16_le
length-write_u16_le v = refl

module _ (used tag : ℕ) (v mem : List ℕ) (fits : used + 4 + length v ≤ length mem) where
  abbrev tagged : List ℕ
  tagged = splice used (write_u16_le tag) mem

  abbrev sized : List ℕ
  sized = splice (used + 2) (write_u16_le (length v % 2 ^ 16)) tagged

  length-tagged : length tagged ≡ length mem
  length-tagged = length-splice used (write_u16_le tag) mem (omega (arith, length-write_u16_le tag))

  length-sized : length sized ≡ length mem
  length-sized =
      length-splice (used + 2) (write_u16_le (length v % 2 ^ 16)) tagged
        (omega (arith, length-tagged, length-write_u16_le (length v % 2 ^ 16)))
      ∙ length-tagged

  length-emitted : length (emitted used tag v mem) ≡ length mem
  length-emitted =
      (copy_value_lem (used + 4) v sized (omega (arith, length-sized))).1 ∙ length-sized

  take-emitted :
      length v < 2 ^ 16
      → take (used + (4 + length v)) (emitted used tag v mem) ≡ take used mem ++ record_bytes tag v
  unfolding record_bytes
  take-emitted short =
      ap (λ (n : ℕ). take n (emitted used tag v mem)) (omega arith)
      ∙ (copy_value_lem (used + 4) v sized (omega (arith, length-sized))).0
      ∙ ap (λ (s : List ℕ). s ++ v)
          (take-splice (used + 2) (used + 4) (write_u16_le (length v % 2 ^ 16)) tagged
              (omega (arith, length-tagged))
              (omega (arith, length-write_u16_le (length v % 2 ^ 16)))
            ∙ ap (λ (s : List ℕ). s ++ write_u16_le (length v % 2 ^ 16))
                (take-splice used (used + 2) (write_u16_le tag) mem (omega arith)
                  (omega (arith, length-write_u16_le tag))))
      ∙ append_assoc (take used mem ++ write_u16_le tag) (write_u16_le (length v % 2 ^ 16)) v
      ∙ append_assoc (take used mem) (write_u16_le tag) (write_u16_le (length v % 2 ^ 16) ++ v)
      ∙ ap (λ (n : ℕ). take used mem ++ (write_u16_le tag ++ (write_u16_le n ++ v))) (omega arith)

pub length-record_bytes : (tag : ℕ) (v : List ℕ) → length (record_bytes tag v) ≡ 4 + length v
unfolding record_bytes write_u16_le
length-record_bytes tag v = omega arith

-- The writer after a record of `n` bytes of value, with the memory `mem`.
abbrev advanced : TlvWriter → ℕ → List ℕ → TlvWriter
advanced w n mem = record w { buf = some mem; used = w.used + (4 + n) }

emit_into_ok :
    (w : TlvWriter) (mem : List ℕ) (tag : ℕ) (v : List ℕ)
    → length v < 2 ^ 16
    → w.used + 4 + length v ≤ w.capacity
    → emit_into w mem tag (some v) (length v)
      ≡ (tlv_ok, advanced w (length v) (emitted w.used tag v mem))
emit_into_ok w mem tag v short room = rw (
  ne→== 0 w.capacity (omega arith),
  le→ltb (length v) 0xffff (omega arith),
  le→ltb (w.used + 4 + length v) w.capacity room,
)

-- Where a writer holds the bytes s, and a record of a 16-bit length fits behind them,
-- tlv_writer_emit returns TLV_OK, and the writer holds s followed by the record's tag, length and
-- value.
pub emit-Holds :
    (w : TlvWriter) (s : List ℕ) (tag : ℕ) (v : List ℕ)
    → Holds w s
    → length v < 2 ^ 16
    → w.used + 4 + length v ≤ w.capacity
    → (w' : TlvWriter) × (tlv_writer_emit w tag (some v) (length v) ≡ (tlv_ok, w'))
      × Holds w' (s ++ record_bytes tag v)
      × (w'.capacity ≡ w.capacity)
unfolding tlv_writer_emit
emit-Holds w s tag v h short room =
    let in_mem : w.used + 4 + length v ≤ length h.mem = omega (arith, h.size) in
    (
      advanced w (length v) (emitted w.used tag v h.mem),
      ap (λ (b : Option (List ℕ)). on_buffer b w (λ mem. emit_into w mem tag (some v) (length v)))
            h.buf
          ∙ emit_into_ok w h.mem tag v short room,
      record {
        mem = emitted w.used tag v h.mem;
        buf = refl;
        size = length-emitted w.used tag v h.mem in_mem ∙ h.size;
        used =
            omega (arith, h.used, length-append s (record_bytes tag v), length-record_bytes tag v);
        fits = omega arith;
        written =
            take-emitted w.used tag v h.mem in_mem short
            ∙ ap (λ (t : List ℕ). t ++ record_bytes tag v) h.written;
      },
      refl,
    )

-- Where a record of a 16-bit length does not fit behind what a writer with a buffer of positive
-- capacity holds, tlv_writer_emit returns TLV_ERR_NO_SPACE and leaves the writer and its buffer as
-- they were.
pub emit_no_space :
    (w : TlvWriter) (s : List ℕ) (tag : ℕ) (v : List ℕ)
    → Holds w s
    → 0 < w.capacity
    → length v < 2 ^ 16
    → w.capacity < w.used + 4 + length v
    → tlv_writer_emit w tag (some v) (length v) ≡ (err_no_space, w)
unfolding tlv_writer_emit
emit_no_space w s tag v h pos short full = rw h.buf (
    rw (
      ne→== 0 w.capacity pos,
      le→ltb (length v) 0xffff (omega arith),
      lt→ltb w.capacity (w.used + 4 + length v) full,
    ))

-- The length field of a record, as the reader sees it.
pub read_u16_le-write_u16_le :
    (v : ℕ) (p : List ℕ) → v < 2 ^ 16 → read_u16_le (write_u16_le v ++ p) ≡ some v
unfolding read_u16_le write_u16_le
read_u16_le-write_u16_le v p h =
    ap (λ (b : ℕ). some b)
      (omega (arith, bit_or_fields 8 (v / 2 ^ 8 % 2 ^ 8) (v % 2 ^ 8) (omega arith)))

pub length-of-record_bytes :
    (tag : ℕ) (v p : List ℕ)
    → length v < 2 ^ 16
    → read_u16_le (drop 2 (record_bytes tag v ++ p)) ≡ some (length v)
unfolding record_bytes
length-of-record_bytes tag v p h = simp append_assoc (
    ap read_u16_le (drop-append 2 (write_u16_le tag) (write_u16_le (length v) ++ (v ++ p)) refl_len)
    ∙ read_u16_le-write_u16_le (length v) (v ++ p) h)
  where
    refl_len : 2 ≡ length (write_u16_le tag)
    refl_len = sym (length-write_u16_le tag)

abbrev advanced_raw : TlvWriter → ℕ → List ℕ → TlvWriter
advanced_raw w total mem = record w { buf = some mem; used = w.used + total }

emit_raw_ok :
    (w : TlvWriter) (mem : List ℕ) (tag : ℕ) (v p : List ℕ)
    → length v < 2 ^ 16
    → w.used + (4 + length v) ≤ w.capacity
    → emit_raw_into w mem (some (record_bytes tag v ++ p)) (4 + length v)
      ≡ some (tlv_ok, advanced_raw w (4 + length v) (splice w.used (record_bytes tag v) mem))
emit_raw_ok w mem tag v p short room = rw (
  ne→== 0 w.capacity (omega arith),
  le→ltb 4 (4 + length v) (omega arith),
  length-of-record_bytes tag v p short,
  eq→== (4 + length v) (4 + length v) refl,
  le→ltb (w.used + (4 + length v)) w.capacity room,
  take-append (4 + length v) (record_bytes tag v) p (sym (length-record_bytes tag v)),
)

-- Where a writer holds the bytes s, and the memory given to tlv_writer_emit_raw begins with a
-- whole record that fits behind them, it returns TLV_OK, and the writer holds s followed by that
-- record, byte for byte.
pub emit_raw-Holds :
    (w : TlvWriter) (s : List ℕ) (tag : ℕ) (v p : List ℕ)
    → Holds w s
    → length v < 2 ^ 16
    → w.used + (4 + length v) ≤ w.capacity
    → (w' : TlvWriter) × (tlv_writer_emit_raw w (some (record_bytes tag v ++ p)) (4 + length v)
        ≡ some (tlv_ok, w'))
      × Holds w' (s ++ record_bytes tag v)
      × (w'.capacity ≡ w.capacity)
unfolding tlv_writer_emit_raw
emit_raw-Holds w s tag v p h short room = (
  advanced_raw w (4 + length v) (splice w.used (record_bytes tag v) h.mem),
  ap
        (λ (b : Option (List ℕ)).
          raw_on_buffer b w
            (λ mem. emit_raw_into w mem (some (record_bytes tag v ++ p)) (4 + length v)))
        h.buf
      ∙ emit_raw_ok w h.mem tag v p short room,
  record {
    mem = splice w.used (record_bytes tag v) h.mem;
    buf = refl;
    size =
        length-splice w.used (record_bytes tag v) h.mem
          (omega (arith, h.size, length-record_bytes tag v))
        ∙ h.size;
    used = omega (arith, h.used, length-append s (record_bytes tag v), length-record_bytes tag v);
    fits = omega arith;
    written =
        take-splice w.used (w.used + (4 + length v)) (record_bytes tag v) h.mem
          (omega (arith, h.size)) (omega (arith, length-record_bytes tag v))
        ∙ ap (λ (t : List ℕ). t ++ record_bytes tag v) h.written;
  },
  refl,
)

pub emit_raw_no_space :
    (w : TlvWriter) (s : List ℕ) (tag : ℕ) (v p : List ℕ)
    → Holds w s
    → 0 < w.capacity
    → length v < 2 ^ 16
    → w.capacity < w.used + (4 + length v)
    → tlv_writer_emit_raw w (some (record_bytes tag v ++ p)) (4 + length v) ≡ some (err_no_space, w)
unfolding tlv_writer_emit_raw
emit_raw_no_space w s tag v p h pos short full =
    ap
      (λ (b : Option (List ℕ)).
        raw_on_buffer b w
          (λ mem. emit_raw_into w mem (some (record_bytes tag v ++ p)) (4 + length v)))
      h.buf
    ∙ rw (
      ne→== 0 w.capacity pos,
      le→ltb 4 (4 + length v) (omega arith),
      length-of-record_bytes tag v p short,
      eq→== (4 + length v) (4 + length v) refl,
      lt→ltb w.capacity (w.used + (4 + length v)) full,
    )
