-- ===== src/Slot/Commit.antt =====
-- slot_write in src/application/config_slot.c: what the two writes make of the storage.
use config_wp.Base.{
  ℕ, ◌+◌, ◌≤◌, ◌<◌, ◌^◌, ◌≡◌, inr, refl, ap, sym, ◌∙◌, true, Option, none, some, List, length,
  take_all, arith, All, eq→==, le→ltb, ne→==,
}
use config_wp.Crc32.{crc32_start}
use config_wp.Crc32.Bounds.{IsWord, step-IsWord, start-IsWord, end-IsWord}
use config_wp.Storage.{Storage, read_ok, storage_read, storage_write, storage_bytes}
use config_wp.Storage.Laws.{
  IsReady, stored, stored-IsReady, read_in_range, write_in_range, write_effect,
}
use config_wp.Slot.{
  SlotHeader, SlotId, slot_a, slot_b, valid, slot_ok, slot_header_looks_sane, slot_validate_full,
  scan_slot, slot_read_header, sane_header, slot_offset, payload_off, slot_pick_active, picked,
  slot_payload_max_bytes, slot_target, slot_header_bytes, slot_crc, header_image, header_prefix,
  new_header, slot_write, write_slot, write_header, write_result, slot_total_bytes, header_of,
}
use config_wp.Slot.Header.{IsHeader, get_header-header_image, length-header_image}
use config_wp.Slot.Frame.{
  SameSlot, SameSlot-trans, other, own-SameSlot, sane_header-frame, header_read,
}
use config_wp.Slot.Active.{IsActive, payload_of, valid-sane_header, target-IsActive, pick-IsActive}

slot_crc-IsWord :
    (table : List ℕ) (h : SlotHeader) (payload : List ℕ)
    → All IsWord table
    → IsWord (slot_crc table h payload)
unfolding slot_crc
slot_crc-IsWord table h payload t =
    end-IsWord _ (
      step-IsWord table _ payload t
        (step-IsWord table crc32_start (header_prefix h) t start-IsWord))

-- The storage after both writes of a payload to slot `id`.
abbrev pub committed : Storage → SlotId → SlotHeader → List ℕ → Storage
committed s id h payload =
    stored (stored s (payload_off id) payload) (slot_offset id) (header_image h)

slot_end : (id : SlotId) → slot_offset id + slot_total_bytes ≤ storage_bytes
slot_end slot_a = omega arith
slot_end slot_b = omega arith

module _ (table : List ℕ) (s : Storage) (id : SlotId) (seq : ℕ) (payload : List ℕ)
    (words : All IsWord table) (ready : IsReady s) (fits_seq : seq < 2 ^ 32)
    (fits : length payload ≤ slot_payload_max_bytes) where
  abbrev head : SlotHeader
  head = new_header table seq payload (length payload)

  abbrev half : Storage
  half = stored s (payload_off id) payload

  abbrev after : Storage
  after = committed s id head payload

  half-IsReady : IsReady half
  half-IsReady = stored-IsReady s (payload_off id) payload ready (omega (arith, slot_end id))

  header_fits : slot_offset id + length (header_image head) ≤ storage_bytes
  header_fits = omega (arith, slot_end id, length-header_image head)

  pub after-IsReady : IsReady after
  after-IsReady = stored-IsReady half (slot_offset id) (header_image head) half-IsReady header_fits

  head-IsHeader : IsHeader head
  unfolding new_header
  head-IsHeader = record {
    magic = omega arith;
    format_ver = omega arith;
    flags = omega arith;
    seq = fits_seq;
    len = omega arith;
    crc32 = slot_crc-IsWord table _ _ words;
  }

  reads_header :
      storage_read after (slot_offset id) true slot_header_bytes ≡ read_ok (header_image head)
  reads_header =
      ap (storage_read after (slot_offset id) true) (sym (length-header_image head))
      ∙ (write_effect half (slot_offset id) (header_image head) half-IsReady header_fits).1

  after_header : slot_read_header after id ≡ some head
  unfolding slot_read_header
  after_header =
      ap header_read reads_header ∙ ap header_of (get_header-header_image head head-IsHeader)

  head_sane : slot_header_looks_sane head ≡ true
  unfolding slot_header_looks_sane new_header
  head_sane = rw (le→ltb (length payload) slot_payload_max_bytes fits)

  head_crc : slot_crc table head payload ≡ head.crc32
  unfolding slot_crc header_prefix new_header
  head_crc = rw (take_all (length payload) payload (omega arith))

  reads_payload : storage_read after (payload_off id) true (length payload) ≡ read_ok payload
  reads_payload =
      (write_effect half (slot_offset id) (header_image head) half-IsReady header_fits).2
        (payload_off id) (length payload) (omega (arith, slot_end id))
        (inr (omega (arith, length-header_image head)))
      ∙ (write_effect s (payload_off id) payload ready (omega (arith, slot_end id))).1

  head_length : head.length ≡ length payload
  unfolding new_header
  head_length = refl

  reads_body : storage_read after (payload_off id) true head.length ≡ read_ok payload
  reads_body = ap (storage_read after (payload_off id) true) head_length ∙ reads_payload

  after_validate : slot_validate_full table after id head slot_payload_max_bytes ≡ valid head
  unfolding slot_validate_full
  after_validate = rw (
    head_sane,
    le→ltb head.length slot_payload_max_bytes (omega (arith, head_length)),
    reads_body,
    eq→== (slot_crc table head payload) head.crc32 head_crc,
  )

  after_scan : scan_slot table after slot_payload_max_bytes id ≡ valid head
  unfolding scan_slot
  after_scan = rw (after_header, scan_slot) after_validate

  after_payload : payload_of after id head ≡ payload
  after_payload = cc (
    read_in_range after (payload_off id) head.length after-IsReady
        (omega (arith, slot_end id, head_length)),
    reads_body,
  )

  after_same : SameSlot s after (other id)
  after_same =
      SameSlot-trans s half after (other id)
        (own-SameSlot s id (payload_off id) payload ready (omega arith) (omega arith))
        (own-SameSlot half id (slot_offset id) (header_image head) half-IsReady (omega arith)
          (omega (arith, length-header_image head)))

  writes : write_slot table s payload (length payload) (id, seq) ≡ (slot_ok, after)
  writes =
      ap (write_header id head)
        (write_in_range s (payload_off id) payload ready (omega (arith, slot_end id)))
      ∙ ap write_result (
          ap (storage_write half (slot_offset id) (some (header_image head)))
            (sym (length-header_image head))
          ∙ write_in_range half (slot_offset id) (header_image head) half-IsReady header_fits)

-- A slot that is written becomes valid with the payload, and the other is as it was.
pub record IsWritten (table : List ℕ) (s : Storage) (id : SlotId) (seq : ℕ) (payload : List ℕ)
    (t : Storage) : Type 0 where
  pub header : SlotHeader
  pub ready : IsReady t
  pub scanned : scan_slot table t slot_payload_max_bytes id ≡ valid header
  pub numbered : header.seq ≡ seq
  pub content : payload_of t id header ≡ payload
  pub same : SameSlot s t (other id)

pub slot_write-IsWritten :
    (table : List ℕ) (s : Storage) (id : SlotId) (seq : ℕ) (payload : List ℕ)
    → All IsWord table
    → IsReady s
    → seq < 2 ^ 32
    → 0 < length payload
    → length payload ≤ slot_payload_max_bytes
    → slot_target (sane_header s slot_a) (sane_header s slot_b) ≡ (id, seq)
    → (t : Storage) × (slot_write table s (some payload) (length payload) ≡ (slot_ok, t))
      × IsWritten table s id seq payload t
unfolding slot_write new_header
slot_write-IsWritten table s id seq payload words ready fits_seq pos fits chosen = (
  after table s id seq payload words ready fits_seq fits,
  rw (ne→== 0 (length payload) pos, le→ltb (length payload) slot_payload_max_bytes fits, chosen)
      (writes table s id seq payload words ready fits_seq fits),
  record {
    header = head table s id seq payload words ready fits_seq fits;
    ready = after-IsReady table s id seq payload words ready fits_seq fits;
    scanned = after_scan table s id seq payload words ready fits_seq fits;
    numbered = refl;
    content = after_payload table s id seq payload words ready fits_seq fits;
    same = after_same table s id seq payload words ready fits_seq fits;
  },
)

abbrev seq_of : Option SlotHeader → ℕ
seq_of none = 0
seq_of (some h) = h.seq

-- The header that a boot sees in the slot that was not written.
old_header :
    (table : List ℕ) (s t : Storage) (id : SlotId) (h g : SlotHeader)
    → IsActive table s id h
    → SameSlot s t id
    → sane_header t id ≡ some g
    → g.seq ≡ h.seq
old_header table s t id h g k same e = ap seq_of (
    sym e
    ∙ sane_header-frame s t id same
    ∙ valid-sane_header table s slot_payload_max_bytes id h k.scanned)

written-IsActive :
    (table : List ℕ) (s t : Storage) (id : SlotId) (h : SlotHeader) (payload : List ℕ)
    → IsActive table s id h
    → (w : IsWritten table s (other id) (h.seq + 1) payload t)
    → IsActive table t (other id) w.header
written-IsActive table s t slot_a h payload k w = record {
  ready = w.ready;
  scanned = w.scanned;
  newest = λ g e. omega (arith, old_header table s t slot_a h g k w.same e, w.numbered);
}
written-IsActive table s t slot_b h payload k w = record {
  ready = w.ready;
  scanned = w.scanned;
  newest = λ g e. omega (arith, old_header table s t slot_b h g k w.same e, w.numbered);
}

-- Where a slot is active whose sequence number is below 2^32 - 1, slot_write of a payload that is
-- not empty and fits returns SLOT_OK, the other slot becomes the active one with the next sequence
-- number, and slot_pick_active gives exactly the payload.
pub commit-IsActive :
    (table : List ℕ) (s : Storage) (id : SlotId) (h : SlotHeader) (payload : List ℕ)
    → All IsWord table
    → IsActive table s id h
    → h.seq + 1 < 2 ^ 32
    → 0 < length payload
    → length payload ≤ slot_payload_max_bytes
    → (t : Storage) × (g : SlotHeader) × (slot_write table s (some payload) (length payload)
        ≡ (slot_ok, t))
      × IsActive table t (other id) g
      × (g.seq ≡ h.seq + 1)
      × (slot_pick_active table t true slot_payload_max_bytes ≡ picked (other id) payload)
commit-IsActive table s id h payload words k room pos fits =
    let (t, writes, w) =
      slot_write-IsWritten table s (other id) (h.seq + 1) payload words k.ready room pos fits
        (target-IsActive table s id h k ∙ ap (λ (q : ℕ). (other id, q)) (omega arith)) in
    let active = written-IsActive table s t id h payload k w in
    (
      t,
      w.header,
      writes,
      active,
      w.numbered,
      pick-IsActive table t (other id) w.header active ∙ ap (picked (other id)) w.content,
    )

-- On storage that is set up and has no sane header, slot_write of a payload that is not empty and
-- fits returns SLOT_OK, slot A becomes the active one with the sequence number 1, and
-- slot_pick_active gives exactly the payload.
pub first-IsActive :
    (table : List ℕ) (s : Storage) (payload : List ℕ)
    → All IsWord table
    → IsReady s
    → sane_header s slot_a ≡ none
    → sane_header s slot_b ≡ none
    → 0 < length payload
    → length payload ≤ slot_payload_max_bytes
    → (t : Storage) × (g : SlotHeader) × (slot_write table s (some payload) (length payload)
        ≡ (slot_ok, t))
      × IsActive table t slot_a g
      × (g.seq ≡ 1)
      × (slot_pick_active table t true slot_payload_max_bytes ≡ picked slot_a payload)
first-IsActive table s payload words ready no_a no_b pos fits =
    let (t, writes, w) =
      slot_write-IsWritten table s slot_a 1 payload words ready (omega arith) pos fits blank in
    let active : IsActive table t slot_a w.header = record {
      ready = w.ready;
      scanned = w.scanned;
      newest = λ g e. cc (sane_header-frame s t slot_b w.same);
    } in
    (
      t,
      w.header,
      writes,
      active,
      w.numbered,
      pick-IsActive table t slot_a w.header active ∙ ap (picked slot_a) w.content,
    )
  where
    blank : slot_target (sane_header s slot_a) (sane_header s slot_b) ≡ (slot_a, 1)
    blank = unfold slot_target in rw (no_a, no_b) refl
