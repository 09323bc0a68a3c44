-- ===== src/Slot/Boot.antt =====
-- A write and the boot that follows it, whether a slot was active before or none was sane.
use config_wp.Base.{
  ℕ, ◌+◌, ◌^◌, ◌<◌, ◌≤◌, ◌≡◌, refl, true, some, none, List, length, take, All, arith, take-take,
  inl, inr, ◌⊎◌,
}
use config_wp.Storage.{Storage, storage_write}
use config_wp.Storage.Laws.{IsReady}
use config_wp.Crc32.Bounds.{IsWord}
use config_wp.Slot.{
  SlotHeader, SlotId, slot_a, slot_b, slot_ok, new_header, sane_header, slot_write,
  slot_pick_active, picked, slot_payload_max_bytes,
}
use config_wp.Slot.Frame.{other}
use config_wp.Slot.Active.{IsActive}
use config_wp.Slot.Commit.{commit-IsActive, first-IsActive}

-- Only the first `len` bytes that the caller points to are used.
pub slot_write-take :
    (table : List ℕ) (s : Storage) (mem : List ℕ) (len : ℕ)
    → slot_write table s (some mem) len ≡ slot_write table s (some (take len mem)) len
unfolding slot_write new_header storage_write
slot_write-take table s mem len = rw (take-take len len mem (omega arith)) refl

-- Storage in which neither slot has a sane header, as a new device's.
pub record IsBlank (s : Storage) : Type 0 where
  pub ready : IsReady s
  pub no_a : sane_header s slot_a ≡ none
  pub no_b : sane_header s slot_b ≡ none

-- A slot is active whose sequence number is not the last one.
pub record IsCurrent (table : List ℕ) (s : Storage) : Type 0 where
  pub id : SlotId
  pub header : SlotHeader
  pub active : IsActive table s id header
  pub room : header.seq + 1 < 2 ^ 32

-- The storage takes a write: it is blank, or a slot is current.
abbrev pub CanCommit : List ℕ → Storage → Type 0
CanCommit table s = IsBlank s ⊎ IsCurrent table s

-- The next boot finds the payload, in the active slot.
pub record Boots (table : List ℕ) (t : Storage) (payload : List ℕ) : Type 0 where
  pub id : SlotId
  pub header : SlotHeader
  pub active : IsActive table t id header
  pub boot : slot_pick_active table t true slot_payload_max_bytes ≡ picked id payload

pub write-Boots :
    (table : List ℕ) (s : Storage) (payload : List ℕ)
    → All IsWord table
    → CanCommit table s
    → 0 < length payload
    → length payload ≤ slot_payload_max_bytes
    → (t : Storage) × (slot_write table s (some payload) (length payload) ≡ (slot_ok, t))
      × Boots table t payload
write-Boots table s payload words (inl b) pos fits =
    let (t, g, writes, active, numbered, boot) =
      first-IsActive table s payload words b.ready b.no_a b.no_b pos fits in
    (t, writes, record { id = slot_a; header = g; active = active; boot = boot })
write-Boots table s payload words (inr k) pos fits =
    let (t, g, writes, active, numbered, boot) =
      commit-IsActive table s k.id k.header payload words k.active k.room pos fits in
    (t, writes, record { id = other k.id; header = g; active = active; boot = boot })
