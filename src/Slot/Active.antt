-- ===== src/Slot/Active.antt =====
-- When slot `id` is the one that boots, and what a power cut before the commit does to it.
use config_wp.Base.{
  ℕ, ◌≤◌, ◌<◌, ◌≡◌, ◌⊎◌, inl, inr, refl, ap, ◌∙◌, Bool, true, Option, none, some, List, arith,
  if◌then◌else◌,
}
use config_wp.Base.Splice.{slice}
use config_wp.Storage.{Storage}
use config_wp.Storage.Laws.{IsReady, read_in_range}
use config_wp.Slot.{
  SlotHeader, SlotId, slot_a, slot_b, Scan, valid, io_error, invalid, slot_header_looks_sane,
  scan_slot, sane_header, if_sane, payload_off, slot_pick_active, pick_winner, reread, picked,
  slot_payload_max_bytes, slot_target, next_seq,
}
use config_wp.Slot.Header.{valid-inversion, sane-length}
use config_wp.Slot.Frame.{other, rereads}

-- `h` wins over the header `g` of the other slot. Slot A wins a tie.
abbrev pub Wins : SlotId → SlotHeader → SlotHeader → Type 0
Wins slot_a h g = g.seq ≤ h.seq
Wins slot_b h g = g.seq < h.seq

-- Slot `id` is valid with the header `h`, and a sane header in the other slot is older.
pub record IsActive (table : List ℕ) (s : Storage) (id : SlotId) (h : SlotHeader) : Type 0 where
  pub ready : IsReady s
  pub scanned : scan_slot table s slot_payload_max_bytes id ≡ valid h
  pub newest : (g : SlotHeader) → sane_header s (other id) ≡ some g → Wins id h g

abbrev pub payload_of : Storage → SlotId → SlotHeader → List ℕ
payload_of s id h = slice (payload_off id) h.length s.backing

pub valid-sane_header :
    (table : List ℕ) (s : Storage) (room : ℕ) (id : SlotId) (h : SlotHeader)
    → scan_slot table s room id ≡ valid h
    → sane_header s id ≡ some h
unfolding sane_header
valid-sane_header table s room id h e =
    let (present, sane) = valid-inversion table s room id h e in
    ap if_sane present ∙ ap (λ (b : Bool). if b then some h else none) sane

Scan-cases : (r : Scan) → ((r ≡ io_error) ⊎ (r ≡ invalid)) ⊎ ((g : SlotHeader) × (r ≡ valid g))
Scan-cases io_error = inl (inl refl)
Scan-cases invalid = inl (inr refl)
Scan-cases (valid g) = inr (g, refl)

pub reread_ok :
    (s : Storage) (id : SlotId) (h : SlotHeader)
    → IsReady s
    → slot_header_looks_sane h ≡ true
    → reread s id h ≡ picked id (payload_of s id h)
reread_ok s slot_a h r sane =
    ap (rereads slot_a)
      (read_in_range s (payload_off slot_a) h.length r (omega (arith, sane-length h sane)))
reread_ok s slot_b h r sane =
    ap (rereads slot_b)
      (read_in_range s (payload_off slot_b) h.length r (omega (arith, sane-length h sane)))

winner :
    (s : Storage) (id : SlotId) (h : SlotHeader) (r : Scan)
    → ((g : SlotHeader) → r ≡ valid g → Wins id h g)
    → pick_winner s
        (elim id [ slot_a ↦ valid h | slot_b ↦ r ])
        (elim id [ slot_a ↦ r | slot_b ↦ valid h ])
      ≡ reread s id h
winner s slot_a h (valid g) w = ground (arith, w g refl)
winner s slot_b h (valid g) w = ground (arith, w g refl)
winner s slot_a h io_error w = refl
winner s slot_a h invalid w = refl
winner s slot_b h io_error w = refl
winner s slot_b h invalid w = refl

-- Where a slot is valid and a sane header in the other slot is older (or, for slot A, of the same
-- age), slot_pick_active gives that slot and its payload.
pub pick-IsActive :
    (table : List ℕ) (s : Storage) (id : SlotId) (h : SlotHeader)
    → IsActive table s id h
    → slot_pick_active table s true slot_payload_max_bytes ≡ picked id (payload_of s id h)
unfolding slot_pick_active
pick-IsActive table s slot_a h k = rw k.scanned (
    winner s slot_a h (scan_slot table s slot_payload_max_bytes slot_b)
      (λ g e. k.newest g (valid-sane_header table s slot_payload_max_bytes slot_b g e))
    ∙ reread_ok s slot_a h k.ready
        (valid-inversion table s slot_payload_max_bytes slot_a h k.scanned).1)
pick-IsActive table s slot_b h k = rw k.scanned (
    winner s slot_b h (scan_slot table s slot_payload_max_bytes slot_a)
      (λ g e. k.newest g (valid-sane_header table s slot_payload_max_bytes slot_a g e))
    ∙ reread_ok s slot_b h k.ready
        (valid-inversion table s slot_payload_max_bytes slot_b h k.scanned).1)

target :
    (id : SlotId) (h : SlotHeader) (o : Option SlotHeader)
    → ((g : SlotHeader) → o ≡ some g → Wins id h g)
    → slot_target
        (elim id [ slot_a ↦ some h | slot_b ↦ o ])
        (elim id [ slot_a ↦ o | slot_b ↦ some h ])
      ≡ (other id, next_seq h)
unfolding slot_target
target slot_a h none w = refl
target slot_b h none w = refl
target slot_a h (some g) w = ground (arith, w g refl)
target slot_b h (some g) w = ground (arith, w g refl)

-- A write goes to the other slot, with the next sequence number.
pub target-IsActive :
    (table : List ℕ) (s : Storage) (id : SlotId) (h : SlotHeader)
    → IsActive table s id h
    → slot_target (sane_header s slot_a) (sane_header s slot_b) ≡ (other id, next_seq h)
target-IsActive table s slot_a h k =
    rw (valid-sane_header table s slot_payload_max_bytes slot_a h k.scanned)
      (target slot_a h (sane_header s slot_b) k.newest)
target-IsActive table s slot_b h k =
    rw (valid-sane_header table s slot_payload_max_bytes slot_b h k.scanned)
      (target slot_b h (sane_header s slot_a) k.newest)
