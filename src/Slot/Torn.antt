-- ===== src/Slot/Torn.antt =====
-- Power cuts inside slot_write of src/application/config_slot.c, before the header is written.
use config_wp.Base.{
  ℕ, ◌+◌, ◌≤◌, ◌<◌, ◌≡◌, ◌≢◌, inl, ap, sym, ◌∙◌, true, some, List, length, take, arith, length-take,
  le→ltb, distinct→==,
}
use config_wp.Storage.{Storage, storage_bytes}
use config_wp.Storage.Laws.{IsReady, stored, stored-IsReady, write_effect, read_in_range}
use config_wp.Slot.{
  SlotHeader, SlotId, slot_a, slot_b, valid, invalid, slot_header_looks_sane, scan_slot,
  slot_read_header, sane_header, if_sane, slot_offset, payload_off, slot_pick_active, picked,
  none_picked, err_no_valid, slot_payload_max_bytes, slot_header_bytes, slot_total_bytes, slot_crc,
  slot_target, next_seq, slot_validate_full,
}
use config_wp.Slot.Header.{valid-inversion, sane-length}
use config_wp.Slot.Frame.{
  SameSlot, other, other-SameSlot, own-SameSlot, scan-frame, reread-frame, header_read,
}
use config_wp.Slot.Active.{IsActive, payload_of, reread_ok, pick-IsActive, valid-sane_header}

-- The storage when power fails after `k` bytes of the payload and before the header.
abbrev pub torn : Storage → SlotId → List ℕ → ℕ → Storage
torn s id payload k = stored s (payload_off id) (take k payload)

torn_in_half :
    (id : SlotId) (payload : List ℕ) (k : ℕ)
    → length payload ≤ slot_payload_max_bytes
    → payload_off id + length (take k payload) ≤ slot_offset id + slot_total_bytes
torn_in_half id payload k fits = omega (arith, length-take k payload)

half_in_storage : (id : SlotId) → slot_offset id + slot_total_bytes ≤ storage_bytes
half_in_storage slot_a = omega arith
half_in_storage slot_b = omega arith

-- A write to a slot's payload does not reach its header.
torn-read_header :
    (s : Storage) (id : SlotId) (payload : List ℕ) (k : ℕ)
    → IsReady s
    → length payload ≤ slot_payload_max_bytes
    → slot_read_header (torn s id payload k) id ≡ slot_read_header s id
unfolding slot_read_header
torn-read_header s id payload k ready fits = ap header_read (
    (write_effect s (payload_off id) (take k payload) ready
        (omega (arith, torn_in_half id payload k fits, half_in_storage id))).2
      (slot_offset id) slot_header_bytes (omega (arith, half_in_storage id)) (inl (omega arith)))

torn-sane_header :
    (s : Storage) (id : SlotId) (payload : List ℕ) (k : ℕ)
    → IsReady s
    → length payload ≤ slot_payload_max_bytes
    → sane_header (torn s id payload k) id ≡ sane_header s id
unfolding sane_header
torn-sane_header s id payload k ready fits = ap if_sane (torn-read_header s id payload k ready fits)

torn-IsReady :
    (s : Storage) (id : SlotId) (payload : List ℕ) (k : ℕ)
    → IsReady s
    → length payload ≤ slot_payload_max_bytes
    → IsReady (torn s id payload k)
torn-IsReady s id payload k ready fits =
    stored-IsReady s (payload_off id) (take k payload) ready
      (omega (arith, torn_in_half id payload k fits, half_in_storage id))

torn-SameSlot :
    (s : Storage) (id : SlotId) (payload : List ℕ) (k : ℕ)
    → IsReady s
    → length payload ≤ slot_payload_max_bytes
    → SameSlot s (torn s (other id) payload k) id
torn-SameSlot s id payload k ready fits =
    other-SameSlot s id (payload_off (other id)) (take k payload) ready (omega arith)
      (torn_in_half (other id) payload k fits)

-- The slot that boots stays active when the other one's write is cut short.
pub torn-IsActive :
    (table : List ℕ) (s : Storage) (id : SlotId) (h : SlotHeader) (payload : List ℕ) (k : ℕ)
    → IsActive table s id h
    → length payload ≤ slot_payload_max_bytes
    → IsActive table (torn s (other id) payload k) id h
torn-IsActive table s id h payload k a fits = record {
  ready = torn-IsReady s (other id) payload k a.ready fits;
  scanned =
      scan-frame s (torn s (other id) payload k) id (torn-SameSlot s id payload k a.ready fits)
        table slot_payload_max_bytes
      ∙ a.scanned;
  newest = λ g e. a.newest g (sym (torn-sane_header s (other id) payload k a.ready fits) ∙ e);
}

-- Where a slot is active, a write to the other slot that is cut after any number of bytes of its
-- payload changes nothing of what slot_pick_active gives.
pub pick-torn :
    (table : List ℕ) (s : Storage) (id : SlotId) (h : SlotHeader) (payload : List ℕ) (k : ℕ)
    → IsActive table s id h
    → length payload ≤ slot_payload_max_bytes
    → slot_pick_active table (torn s (other id) payload k) true slot_payload_max_bytes
      ≡ slot_pick_active table s true slot_payload_max_bytes
pick-torn table s id h payload k a fits =
    let t = torn s (other id) payload k in
    let sane = (valid-inversion table s slot_payload_max_bytes id h a.scanned).1 in
    let b = torn-IsActive table s id h payload k a fits in
    pick-IsActive table t id h b
    ∙ sym (reread_ok t id h b.ready sane)
    ∙ reread-frame s t id (torn-SameSlot s id payload k a.ready fits) h sane
    ∙ reread_ok s id h a.ready sane
    ∙ sym (pick-IsActive table s id h a)

module _ (table : List ℕ) (s : Storage) (h g : SlotHeader) (payload : List ℕ) (ready : IsReady s)
    (good : scan_slot table s slot_payload_max_bytes slot_a ≡ valid h)
    (bad : scan_slot table s slot_payload_max_bytes slot_b ≡ invalid)
    (sane : sane_header s slot_b ≡ some g) (newer : h.seq < g.seq)
    (fits : length payload ≤ slot_payload_max_bytes) where
  a_sane : slot_header_looks_sane h ≡ true
  a_sane = (valid-inversion table s slot_payload_max_bytes slot_a h good).1

  boots_a :
      slot_pick_active table s true slot_payload_max_bytes ≡ picked slot_a (payload_of s slot_a h)
  unfolding slot_pick_active
  boots_a = rw (good, bad) (reread_ok s slot_a h ready a_sane)

  targets_a : slot_target (sane_header s slot_a) (sane_header s slot_b) ≡ (slot_a, next_seq g)
  unfolding slot_target
  targets_a =
      rw (valid-sane_header table s slot_payload_max_bytes slot_a h good, sane) (ground arith)

  module _ (k : ℕ)
      (detected : slot_crc table h (payload_of (torn s slot_a payload k) slot_a h) ≢ h.crc32) where
    abbrev cut : Storage
    cut = torn s slot_a payload k

    a_header : slot_read_header cut slot_a ≡ some h
    a_header =
        torn-read_header s slot_a payload k ready fits
        ∙ (valid-inversion table s slot_payload_max_bytes slot_a h good).0

    a_rejected : slot_validate_full table cut slot_a h slot_payload_max_bytes ≡ invalid
    unfolding slot_validate_full
    a_rejected = rw (
      a_sane,
      le→ltb h.length slot_payload_max_bytes (sane-length h a_sane),
      read_in_range cut (payload_off slot_a) h.length (torn-IsReady s slot_a payload k ready fits)
          (omega (arith, sane-length h a_sane)),
      distinct→== (slot_crc table h (payload_of cut slot_a h)) h.crc32 detected,
    )

    b_invalid : scan_slot table cut slot_payload_max_bytes slot_b ≡ invalid
    b_invalid =
        scan-frame s cut slot_b
          (own-SameSlot s slot_a (payload_off slot_a) (take k payload) ready (omega arith)
            (torn_in_half slot_a payload k fits))
          table slot_payload_max_bytes
        ∙ bad

    a_lost : scan_slot table cut slot_payload_max_bytes slot_a ≡ invalid
    unfolding scan_slot
    a_lost = rw (a_header, scan_slot) a_rejected

    -- Where slot A is valid, slot B has a sane header with a greater sequence number and is not
    -- valid, and the checksum detects a payload write to slot A that was cut after k bytes: the
    -- boot takes slot A, slot_write targets that same slot A, and after the cut slot_pick_active
    -- finds no valid slot.
    pub only_valid_slot_lost :
        (slot_pick_active table s true slot_payload_max_bytes
          ≡ picked slot_a (payload_of s slot_a h))
        × (slot_target (sane_header s slot_a) (sane_header s slot_b) ≡ (slot_a, next_seq g))
        × (slot_pick_active table (torn s slot_a payload k) true slot_payload_max_bytes
            ≡ none_picked err_no_valid)
    unfolding slot_pick_active
    only_valid_slot_lost = (boots_a, targets_a, rw (a_lost, b_invalid))
