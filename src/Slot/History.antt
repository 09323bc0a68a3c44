-- ===== src/Slot/History.antt =====
-- Any history of slot_write calls and power cuts, from storage in which no header is sane.
use config_wp.Base.{
  ℕ, ◌+◌, ◌≤◌, ◌<◌, ◌^◌, ◌≡◌, ap, sym, ◌∙◌, true, some, none, List, length, arith, All,
}
use config_wp.Crc32.Bounds.{IsWord}
use config_wp.Storage.{Storage}
use config_wp.Storage.Laws.{IsReady}
use config_wp.Slot.{
  SlotHeader, SlotId, slot_a, slot_b, slot_ok, SlotStatus, sane_header, slot_pick_active, picked,
  slot_payload_max_bytes, slot_target, slot_write,
}
use config_wp.Slot.Frame.{other}
use config_wp.Slot.Active.{IsActive, target-IsActive}
use config_wp.Slot.Commit.{commit-IsActive, first-IsActive}
use config_wp.Slot.Torn.{torn, torn-IsActive, pick-torn}

-- What slot_write accepts.
abbrev pub IsPayload : List ℕ → Type 0
IsPayload payload = (0 < length payload) × (length payload ≤ slot_payload_max_bytes)

-- `History s last n`: the storage is `s` after `n` writes that returned SLOT_OK, the latest of the
-- payload `last`, and any number of writes that power failures cut before their header.
pub data History (table : List ℕ) : Storage → List ℕ → ℕ → Type 0 where
  first :
      {s t : Storage} {payload : List ℕ}
      → IsReady s
      → sane_header s slot_a ≡ none
      → sane_header s slot_b ≡ none
      → IsPayload payload
      → slot_write table s (some payload) (length payload) ≡ (slot_ok, t)
      → History table t payload 1
  commit :
      {s t : Storage} {last payload : List ℕ} {n : ℕ}
      → History table s last n
      → n + 1 < 2 ^ 32
      → IsPayload payload
      → slot_write table s (some payload) (length payload) ≡ (slot_ok, t)
      → History table t payload (n + 1)
  cut :
      {s : Storage} {last : List ℕ} {n q : ℕ} {id : SlotId} (payload : List ℕ) (k : ℕ)
      → History table s last n
      → IsPayload payload
      → slot_target (sane_header s slot_a) (sane_header s slot_b) ≡ (id, q)
      → History table (torn s id payload k) last n

-- The active slot after `n` writes holds the last payload.
record Holds (table : List ℕ) (s : Storage) (last : List ℕ) (n : ℕ) : Type 0 where
  id : SlotId
  header : SlotHeader
  active : IsActive table s id header
  numbered : header.seq ≡ n
  boots : slot_pick_active table s true slot_payload_max_bytes ≡ picked id last

abbrev storage_of : SlotStatus × Storage → Storage
storage_of r = r.1

abbrev slot_of : SlotId × ℕ → SlotId
slot_of r = r.0

cut-Holds :
    (table : List ℕ) (s : Storage) (last payload : List ℕ) (n k q : ℕ) (id : SlotId)
    → (h : Holds table s last n) → length payload ≤ slot_payload_max_bytes
    → other h.id ≡ id
    → Holds table (torn s id payload k) last n
cut-Holds table s last payload n k q id h fits e = rw (← e) (record {
  id = h.id;
  header = h.header;
  active = torn-IsActive table s h.id h.header payload k h.active fits;
  numbered = h.numbered;
  boots = pick-torn table s h.id h.header payload k h.active fits ∙ h.boots;
})

History-Holds :
    {table : List ℕ} {s : Storage} {last : List ℕ} {n : ℕ}
    → All IsWord table
    → History table s last n
    → Holds table s last n
History-Holds {table} words (first {s = s} {payload = payload} ready a b p w) =
    let (t, g, writes, active, one, boots) =
      first-IsActive table s payload words ready a b p.0 p.1 in
    rw (ap storage_of (sym w ∙ writes))
      (record { id = slot_a; header = g; active = active; numbered = one; boots = boots })
History-Holds {table} words (commit {s = s} {payload = payload} r room p w) =
    let h = History-Holds words r in
    let (t, g, writes, active, next, boots) =
      commit-IsActive table s h.id h.header payload words h.active (omega (arith, h.numbered)) p.0
        p.1 in
    rw (ap storage_of (sym w ∙ writes)) (record {
      id = other h.id;
      header = g;
      active = active;
      numbered = next ∙ ap (λ (m : ℕ). m + 1) h.numbered;
      boots = boots;
    })
History-Holds {table} words (cut {s = s} {last = last} {n = n} {q = q} {id = id} payload k r p e) =
    let h = History-Holds words r in
    cut-Holds table s last payload n k q id h p.1
      (ap slot_of (sym (target-IsActive table s h.id h.header h.active) ∙ e))

-- After any history that starts with a write to storage without sane headers and goes on with
-- writes that returned SLOT_OK and with writes that a power failure cut during their payload, with
-- fewer than 2^32 writes in all, slot_pick_active gives the payload of the last write that
-- returned SLOT_OK.
pub boots_last_commit :
    (table : List ℕ) (s : Storage) (last : List ℕ) (n : ℕ)
    → All IsWord table
    → History table s last n
    → (id : SlotId) × (slot_pick_active table s true slot_payload_max_bytes ≡ picked id last)
boots_last_commit table s last n words r = let h = History-Holds words r in (h.id, h.boots)
