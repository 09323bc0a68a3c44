-- ===== src/Slot/TornHeader.antt =====
-- Power cuts inside the header write of slot_write, when the payload is already there.
use config_wp.Base.{ℕ, ◌+◌, ◌≤◌, ◌≡◌, refl, sym, ◌∙◌, true, List, length, take, arith, length-take}
use config_wp.Storage.{Storage, storage_bytes}
use config_wp.Storage.Laws.{IsReady, stored, stored-IsReady}
use config_wp.Slot.{
  SlotHeader, SlotId, slot_a, slot_b, valid, invalid, scan_slot, slot_offset, payload_off,
  slot_pick_active, reread, slot_payload_max_bytes, header_image,
}
use config_wp.Slot.Header.{valid-inversion, length-header_image}
use config_wp.Slot.Frame.{SameSlot, SameSlot-trans, other, other-SameSlot, scan-frame, reread-frame}
use config_wp.Slot.Active.{IsActive, reread_ok, pick-IsActive}

-- The storage when power fails after `j` bytes of the header of a new record.
abbrev pub torn_header : Storage → SlotId → List ℕ → SlotHeader → ℕ → Storage
torn_header s id payload g j =
    stored (stored s (payload_off id) payload) (slot_offset id) (take j (header_image g))

-- With the other slot not valid, the valid one boots.
pick-only_valid :
    (table : List ℕ) (s : Storage) (id : SlotId) (h : SlotHeader)
    → scan_slot table s slot_payload_max_bytes id ≡ valid h
    → scan_slot table s slot_payload_max_bytes (other id) ≡ invalid
    → slot_pick_active table s true slot_payload_max_bytes ≡ reread s id h
unfolding slot_pick_active
pick-only_valid table s slot_a h good bad = rw (good, bad) refl
pick-only_valid table s slot_b h good bad = rw (good, bad) refl

module _ (table : List ℕ) (s : Storage) (id : SlotId) (h g : SlotHeader) (payload : List ℕ) (j : ℕ)
    (active : IsActive table s id h) (fits : length payload ≤ slot_payload_max_bytes) where
  half : Storage
  half = stored s (payload_off (other id)) payload

  header_fits : length (take j (header_image g)) ≤ 20
  header_fits = omega (arith, length-take j (header_image g), length-header_image g)

  in_storage : (i : SlotId) → payload_off i + length payload ≤ storage_bytes
  in_storage slot_a = omega arith
  in_storage slot_b = omega arith

  half-SameSlot : SameSlot s half id
  unfolding half
  half-SameSlot =
      other-SameSlot s id (payload_off (other id)) payload active.ready (omega arith) (omega arith)

  half-IsReady : IsReady half
  unfolding half
  half-IsReady =
      stored-IsReady s (payload_off (other id)) payload active.ready (in_storage (other id))

  torn_header-SameSlot : SameSlot s (torn_header s (other id) payload g j) id
  unfolding half
  torn_header-SameSlot =
      SameSlot-trans s half (torn_header s (other id) payload g j) id half-SameSlot (
        other-SameSlot half id (slot_offset (other id)) (take j (header_image g)) half-IsReady
          (omega arith) (omega (arith, header_fits)))

  -- Where a slot is active, and a write to the other slot is cut after any number of bytes of its
  -- header, its payload being there already, so that the other slot is not valid: slot_pick_active
  -- gives what it gave before the write.
  pub pick-torn_header :
      scan_slot table (torn_header s (other id) payload g j) slot_payload_max_bytes (other id)
        ≡ invalid
      → slot_pick_active table (torn_header s (other id) payload g j) true slot_payload_max_bytes
        ≡ slot_pick_active table s true slot_payload_max_bytes
  pick-torn_header rejected =
      let t = torn_header s (other id) payload g j in
      let sane = (valid-inversion table s slot_payload_max_bytes id h active.scanned).1 in
      pick-only_valid table t id h
        (scan-frame s t id torn_header-SameSlot table slot_payload_max_bytes ∙ active.scanned)
        rejected
      ∙ reread-frame s t id torn_header-SameSlot h sane
      ∙ reread_ok s id h active.ready sane
      ∙ sym (pick-IsActive table s id h active)
