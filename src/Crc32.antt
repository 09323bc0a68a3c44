-- ===== src/Crc32.antt =====
-- CRC-32/ISO-HDLC: src/application/crc32.c. The table is the module's state.
pub mod Xor
pub mod Rounds
pub mod Table
pub mod Bounds
use config_wp.Base.{
  ℕ, zero, suc, ◌+◌, ◌/◌, ◌%◌, ◌^◌, Bool, true, false, List, [], ◌∷◌, bit_xor, get_or, ◌==◌,
  if◌then◌else◌,
}

abbrev pub crc32_poly : ℕ
crc32_poly = 0xedb88320

abbrev pub crc32_initial : ℕ
crc32_initial = 0xffffffff

abbrev pub crc32_final : ℕ
crc32_final = 0xffffffff

pub record Crc32 : Type 0 where
  pub table : List ℕ
  pub table_ready : Bool

-- (c >> 1) ^ ((c & 1u) ? CRC32_POLY : 0u)
unfoldable pub crc32_round : ℕ → ℕ
crc32_round c = bit_xor (c / 2) (if c % 2 == 0 then 0 else crc32_poly)

-- The inner loop with `n` rounds left.
unfoldable pub crc32_rounds : ℕ → ℕ → ℕ
crc32_rounds zero c = c
crc32_rounds (suc n) c = crc32_rounds n (crc32_round c)

-- The outer loop at index `i` with `left` entries to fill.
unfoldable pub crc32_entries : ℕ → ℕ → List ℕ
unfolding crc32_rounds crc32_round
crc32_entries zero i = []
crc32_entries (suc left) i = crc32_rounds 8 i ∷ crc32_entries left (i + 1)

unfoldable pub crc32_init : Crc32 → Crc32
unfolding crc32_entries
crc32_init c = record { table = crc32_entries 256 0; table_ready = true }

unfoldable pub crc32_start : ℕ
crc32_start = crc32_initial

-- The loop over the bytes.
unfoldable pub crc32_step : List ℕ → ℕ → List ℕ → ℕ
crc32_step table state [] = state
crc32_step table state (b ∷ p) =
    crc32_step table (bit_xor (get_or table (bit_xor state b % 2 ^ 8) 0) (state / 2 ^ 8)) p

unfoldable pub crc32_end : ℕ → ℕ
crc32_end state = bit_xor state crc32_final

unfoldable pub crc32_compute : List ℕ → List ℕ → ℕ
unfolding crc32_start crc32_step crc32_end
crc32_compute table p = crc32_end (crc32_step table crc32_start p)
