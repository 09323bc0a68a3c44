-- ===== src/Tlv/Iter.antt =====
-- The iterator reads back a stream of records, and never reads past the buffer.
use config_wp.Base.{
  ℕ, ◌+◌, ◌^◌, ◌≤◌, ◌<◌, ◌≡◌, ◌≢◌, refl, ap, sym, ◌∙◌, some, List, [], ◌∷◌, ◌++◌, length, take,
  drop, arith, append_assoc, ltb, ◌==◌, le→ltb, length-take, length-drop, drop-append, drop-drop,
  take-append, lt→==, eq→==, Bool-cases, ltb→le, inl, inr,
}
use config_wp.Base.Splice.{slice}
use config_wp.Tlv.Status.{tlv_ok, tlv_end}
use config_wp.Tlv.{
  TlvIter, IterStep, stopped, record_at, fault, tlv_iter_next, record_bytes, read_u16_le,
  write_u16_le, iter_value,
}
use config_wp.Tlv.Writer.{read_u16_le-write_u16_le, length-of-record_bytes, length-record_bytes}

-- What the memory at the cursor begins with.
abbrev pub At : TlvIter → List ℕ → Type 0
At it s = drop it.cursor it.buf ≡ s

abbrev pub behind : TlvIter → ℕ → TlvIter
behind it n = record it { cursor = it.cursor + 4 + n }

module _ (it : TlvIter) (tag : ℕ) (v p : List ℕ) (at : At it (record_bytes tag v ++ p))
    (fits_tag : tag < 2 ^ 16) (short : length v < 2 ^ 16) where
  reads_tag : read_u16_le (drop it.cursor it.buf) ≡ some tag
  unfolding record_bytes
  reads_tag =
      ap read_u16_le (at ∙ append_assoc (write_u16_le tag) (write_u16_le (length v) ++ v) p)
      ∙ read_u16_le-write_u16_le tag ((write_u16_le (length v) ++ v) ++ p) fits_tag

  reads_length : read_u16_le (drop (it.cursor + 2) it.buf) ≡ some (length v)
  reads_length =
      ap read_u16_le (sym (drop-drop 2 it.cursor (it.cursor + 2) it.buf refl) ∙ ap (drop 2) at)
      ∙ length-of-record_bytes tag v p short

  drop-record : drop 4 (record_bytes tag v ++ p) ≡ v ++ p
  unfolding record_bytes write_u16_le
  drop-record = refl

  reads_value : slice (it.cursor + 4) (length v) it.buf ≡ v
  unfolding slice
  reads_value =
      ap (take (length v))
        (sym (drop-drop 4 it.cursor (it.cursor + 4) it.buf refl) ∙ ap (drop 4) at ∙ drop-record)
      ∙ take-append (length v) v p refl

  -- Where the memory at the cursor begins with the bytes of a record of a 16-bit tag and length,
  -- which ends within the length, tlv_iter_next returns its tag and its value and moves the cursor
  -- behind it.
  pub next-record :
      it.cursor + 4 + length v ≤ it.buf_len
      → tlv_iter_next it ≡ record_at tag v (behind it (length v))
  unfolding tlv_iter_next
  next-record fits =
      rw
        (
          lt→== it.cursor it.buf_len (omega arith),
          le→ltb (it.cursor + 4) it.buf_len (omega arith),
          reads_tag,
          reads_length,
          le→ltb (it.cursor + 4 + length v) it.buf_len fits,
        )
        (ap (λ (u : List ℕ). record_at tag u (behind it (length v))) reads_value)

  -- The rest of the memory is at the new cursor.
  pub behind-At : At (behind it (length v)) p
  behind-At =
      sym (drop-drop (4 + length v) it.cursor (it.cursor + 4 + length v) it.buf (omega arith))
      ∙ ap (drop (4 + length v)) at
      ∙ drop-append (4 + length v) (record_bytes tag v) p (sym (length-record_bytes tag v))

pub next_end : (it : TlvIter) → it.cursor ≡ it.buf_len → tlv_iter_next it ≡ stopped tlv_end
unfolding tlv_iter_next
next_end it h = rw (eq→== it.cursor it.buf_len h)

-- Where two bytes are left, the read of a length or a tag succeeds.
read_u16_le_total : (p : List ℕ) → 2 ≤ length p → (v : ℕ) × (read_u16_le p ≡ some v)
unfolding read_u16_le
read_u16_le_total [] h = absurd (omega arith)
read_u16_le_total (a ∷ []) h = absurd (omega arith)
read_u16_le_total (a ∷ b ∷ p) h = (_, refl)

-- What a call of the iterator may give: an end or an error, or a record of the buffer.
abbrev pub Steps : TlvIter → IterStep → Type 0
Steps it (stopped st) = st ≢ tlv_ok
Steps it fault = ⊥
Steps it (record_at tag v it') =
    (it'.buf ≡ it.buf)
    × (it'.buf_len ≡ it.buf_len)
    × (it.cursor + 4 + length v ≡ it'.cursor)
    × (it'.cursor ≤ it.buf_len)

iter_value-Steps :
    (it : TlvIter) (tag len : ℕ) → it.buf_len ≤ length it.buf → Steps it (iter_value it tag len)
unfolding slice
iter_value-Steps it tag len h = elim (Bool-cases (ltb it.buf_len (it.cursor + 4 + len))) [
  | inl over ↦ rw over (λ e. cc)
  | inr fits ↦ rw fits (
    refl,
    refl,
    omega (
      arith,
      length-take len (drop (it.cursor + 4) it.buf),
      length-drop (it.cursor + 4) it.buf,
      ltb→le it.buf_len (it.cursor + 4 + len) fits,
    ),
    omega (arith, ltb→le it.buf_len (it.cursor + 4 + len) fits),
  )
]

-- With the cursor within the length, and the length within the memory, tlv_iter_next on any bytes
-- reads only within the memory: it ends, reports an error, or returns a record with its whole
-- value and the cursor right behind it, still within the length.
pub next-Steps :
    (it : TlvIter)
    → it.cursor ≤ it.buf_len
    → it.buf_len ≤ length it.buf
    → Steps it (tlv_iter_next it)
unfolding tlv_iter_next
next-Steps it inside in_mem = elim (Bool-cases (it.cursor == it.buf_len)) [
  | inl done ↦ rw done (λ e. cc)
  | inr more ↦ elim (Bool-cases (ltb it.buf_len (it.cursor + 4))) [
    | inl short ↦ rw (more, short) (λ e. cc)
    | inr room ↦
        let header : it.cursor + 4 ≤ it.buf_len = ltb→le it.buf_len (it.cursor + 4) room in
        let (tag, reads) =
          read_u16_le_total (drop it.cursor it.buf) (omega (arith, length-drop it.cursor it.buf)) in
        let (len, reads') =
          read_u16_le_total (drop (it.cursor + 2) it.buf)
            (omega (arith, length-drop (it.cursor + 2) it.buf)) in
        rw (more, room, reads, reads') (iter_value-Steps it tag len in_mem)
  ]
]
