-- ===== src/Tests/Slots.antt =====
-- Runs of the two-slot store, on storage as storage_init leaves it.
use config_wp.Base.{
  ℕ, ◌+◌, ◌<◌, ◌≡◌, ◌≢◌, refl, true, false, some, none, List, [], ◌∷◌, ◌++◌, arith, All,
}
use config_wp.Base.Splice.{splice, slice}
use config_wp.Codec.Cursor.{get_u16, get_u32, put_u16, put_u32}
use config_wp.Crc32.{Crc32, crc32_init, crc32_start, crc32_step, crc32_end}
use config_wp.Crc32.Bounds.{IsWord, init-IsWord}
use config_wp.Storage.{Storage, storage_init, storage_read}
use config_wp.Storage.Laws.{IsReady, init-IsReady, stored}
use config_wp.Slot.{
  SlotHeader, SlotId, slot_a, slot_b, slot_ok, err_no_valid, picked, none_picked, valid, invalid,
  slot_write, slot_pick_active, slot_target, slot_payload_max_bytes, sane_header, scan_slot,
  new_header, header_image, header_prefix, get_header, slot_read_header, slot_header_looks_sane,
  slot_validate_full, slot_crc, next_seq,
}
use config_wp.Slot.Active.{IsActive, payload_of}
use config_wp.Slot.Commit.{commit-IsActive, first-IsActive}
use config_wp.Slot.Torn.{torn, pick-torn, only_valid_slot_lost}
use config_wp.Slot.TornHeader.{torn_header}
use config_wp.Slot.History.{History, boots_last_commit}

abbrev pub no_crc : Crc32
no_crc = record { table = []; table_ready = false }

abbrev pub table : List ℕ
table = (crc32_init no_crc).table

pub words : All IsWord table
words = init-IsWord no_crc

abbrev pub off : Storage
off = record { backing = []; initialised = false }

abbrev pub blank : Storage
blank = (storage_init off).1

pub blank_a : sane_header blank slot_a ≡ none
unfolding sane_header slot_read_header slot_header_looks_sane get_header get_u16 get_u32
    storage_read storage_init slice
blank_a = refl

pub blank_b : sane_header blank slot_b ≡ none
unfolding sane_header slot_read_header slot_header_looks_sane get_header get_u16 get_u32
    storage_read storage_init slice
blank_b = refl

abbrev pub one : List ℕ
one = 1 ∷ 2 ∷ 3 ∷ []

abbrev pub two : List ℕ
two = 4 ∷ 5 ∷ []

first-IsActive_example :
    (t : Storage) × (g : SlotHeader) × (slot_write table blank (some one) 3 ≡ (slot_ok, t))
    × IsActive table t slot_a g
    × (g.seq ≡ 1)
    × (slot_pick_active table t true slot_payload_max_bytes ≡ picked slot_a one)
first-IsActive_example =
    first-IsActive table blank one words (init-IsReady off) blank_a blank_b (omega arith)
      (omega arith)

abbrev pub first_run :
    (t : Storage) × (g : SlotHeader) × (slot_write table blank (some one) 3 ≡ (slot_ok, t))
    × IsActive table t slot_a g
    × (g.seq ≡ 1)
    × (slot_pick_active table t true slot_payload_max_bytes ≡ picked slot_a one)
first_run =
    first-IsActive table blank one words (init-IsReady off) blank_a blank_b (omega arith)
      (omega arith)

commit-IsActive_example :
    (t : Storage) × (g : SlotHeader) × (slot_write table first_run.0 (some two) 2 ≡ (slot_ok, t))
    × IsActive table t slot_b g
    × (g.seq ≡ first_run.1.seq + 1)
    × (slot_pick_active table t true slot_payload_max_bytes ≡ picked slot_b two)
commit-IsActive_example =
    commit-IsActive table first_run.0 slot_a first_run.1 two words first_run.3
      (omega (arith, first_run.4)) (omega arith) (omega arith)

pick-torn_example :
    slot_pick_active table (torn first_run.0 slot_b two 1) true slot_payload_max_bytes
    ≡ slot_pick_active table first_run.0 true slot_payload_max_bytes
pick-torn_example = pick-torn table first_run.0 slot_a first_run.1 two 1 first_run.3 (omega arith)

boots_last_commit_example :
    (id : SlotId) × (slot_pick_active table first_run.0 true slot_payload_max_bytes ≡ picked id one)
boots_last_commit_example =
    boots_last_commit table first_run.0 one 1 words
      (History.first (init-IsReady off) blank_a blank_b (omega arith, omega arith) first_run.2)

-- Slot A holds `one`; slot B has the header of a newer write whose payload never arrived.
abbrev header_a : SlotHeader
header_a = new_header table 1 one 3

abbrev header_b : SlotHeader
header_b = new_header table 2 two 2

abbrev with_a : Storage
with_a = stored blank 0 (header_image header_a ++ one)

abbrev damaged : Storage
damaged = stored with_a 2048 (header_image header_b)

damaged-IsReady : IsReady damaged
unfolding storage_init splice header_image header_prefix put_u16 put_u32
damaged-IsReady = record { initialised = refl; size = refl }

a_valid : scan_slot table damaged slot_payload_max_bytes slot_a ≡ valid header_a
unfolding scan_slot slot_validate_full slot_crc crc32_init crc32_start crc32_step crc32_end
    new_header header_image header_prefix put_u16 put_u32 slot_read_header slot_header_looks_sane
    get_header get_u16 get_u32 storage_read storage_init slice splice
a_valid = refl

b_invalid : scan_slot table damaged slot_payload_max_bytes slot_b ≡ invalid
unfolding scan_slot slot_validate_full slot_crc crc32_init crc32_start crc32_step crc32_end
    new_header header_image header_prefix put_u16 put_u32 slot_read_header slot_header_looks_sane
    get_header get_u16 get_u32 storage_read storage_init slice splice
b_invalid = refl

b_sane : sane_header damaged slot_b ≡ some header_b
unfolding sane_header scan_slot slot_validate_full slot_crc crc32_init crc32_start crc32_step
    crc32_end new_header header_image header_prefix put_u16 put_u32 slot_read_header
    slot_header_looks_sane get_header get_u16 get_u32 storage_read storage_init slice splice
b_sane = refl

a_older : header_a.seq < header_b.seq
unfolding new_header
a_older = omega arith

cut_detected :
    slot_crc table header_a (payload_of (torn damaged slot_a two 1) slot_a header_a)
    ≢ header_a.crc32
unfolding scan_slot slot_validate_full slot_crc crc32_init crc32_start crc32_step crc32_end
    new_header header_image header_prefix put_u16 put_u32 slot_read_header slot_header_looks_sane
    get_header get_u16 get_u32 storage_read storage_init slice splice
cut_detected = λ e. omega (arith, e)

only_valid_slot_lost_example :
    (slot_pick_active table damaged true slot_payload_max_bytes
      ≡ picked slot_a (payload_of damaged slot_a header_a))
    × (slot_target (sane_header damaged slot_a) (sane_header damaged slot_b)
        ≡ (slot_a, next_seq header_b))
    × (slot_pick_active table (torn damaged slot_a two 1) true slot_payload_max_bytes
        ≡ none_picked err_no_valid)
only_valid_slot_lost_example =
    only_valid_slot_lost table damaged header_a header_b two damaged-IsReady a_valid b_invalid
      b_sane a_older (omega arith) 1 cut_detected

-- Storage with `one` in slot A and nothing in slot B.
with_a-IsReady : IsReady with_a
unfolding storage_init splice header_image header_prefix put_u16 put_u32
with_a-IsReady = record { initialised = refl; size = refl }

only_a_valid : scan_slot table with_a slot_payload_max_bytes slot_a ≡ valid header_a
unfolding scan_slot slot_validate_full slot_crc crc32_init crc32_start crc32_step crc32_end
    new_header header_image header_prefix put_u16 put_u32 slot_read_header slot_header_looks_sane
    get_header get_u16 get_u32 storage_read storage_init slice splice
only_a_valid = refl

b_blank : sane_header with_a slot_b ≡ none
unfolding sane_header scan_slot slot_validate_full slot_crc crc32_init crc32_start crc32_step
    crc32_end new_header header_image header_prefix put_u16 put_u32 slot_read_header
    slot_header_looks_sane get_header get_u16 get_u32 storage_read storage_init slice splice
b_blank = refl

with_a-IsActive : IsActive table with_a slot_a header_a
with_a-IsActive = record {
  ready = with_a-IsReady;
  scanned = only_a_valid;
  newest = λ g e. absurd (cc b_blank);
}

cut_rejected :
    scan_slot table (torn_header with_a slot_b two header_b 17) slot_payload_max_bytes slot_b
    ≡ invalid
unfolding scan_slot slot_validate_full slot_crc crc32_init crc32_start crc32_step crc32_end
    new_header header_image header_prefix put_u16 put_u32 slot_read_header slot_header_looks_sane
    get_header get_u16 get_u32 storage_read storage_init slice splice
cut_rejected = refl
