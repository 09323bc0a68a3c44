-- ===== src/Crc32/Table.antt =====
-- The table-driven loop computes the bit-by-bit CRC.
use config_wp.Base.{
  ℕ, zero, suc, ◌+◌, ◌/◌, ◌%◌, ◌^◌, ◌<◌, ◌≡◌, refl, ap, sym, ◌∙◌, List, [], ◌∷◌, ◌++◌, bit_xor,
  arith, get_or, All,
}
use config_wp.Crc32.{Crc32, crc32_rounds, crc32_entries, crc32_init, crc32_step}
use config_wp.Crc32.Xor.{xor_half, xor-zero}
use config_wp.Crc32.Rounds.{rounds_split}

abbrev pub IsByte : ℕ → Type 0
IsByte b = b < 2 ^ 8

-- The reference: a byte is xored in, then eight rounds.
pub crc_bitwise : ℕ → List ℕ → ℕ
crc_bitwise state [] = state
crc_bitwise state (b ∷ p) = crc_bitwise (crc32_rounds 8 (bit_xor state b)) p

get_or-entries :
    (left i j : ℕ) → j < left → get_or (crc32_entries left i) j 0 ≡ crc32_rounds 8 (i + j)
unfolding crc32_entries
get_or-entries zero i j h = absurd (omega arith)
get_or-entries (suc left) i zero h = ap (crc32_rounds 8) (omega arith)
get_or-entries (suc left) i (suc j) h =
    get_or-entries left (i + 1) j (omega arith) ∙ ap (crc32_rounds 8) (omega arith)

table_entry : (c : Crc32) (j : ℕ) → j < 2 ^ 8 → get_or (crc32_init c).table j 0 ≡ crc32_rounds 8 j
unfolding crc32_init
table_entry c j h = get_or-entries 256 0 j h ∙ ap (crc32_rounds 8) (omega arith)

abbrev halves : ℕ → ℕ → ℕ
halves zero x = x
halves (suc n) x = halves n (x / 2)

halves-xor : (n a b : ℕ) → halves n (bit_xor a b) ≡ bit_xor (halves n a) (halves n b)
halves-xor zero a b = refl
halves-xor (suc n) a b = ap (halves n) (xor_half a b) ∙ halves-xor n (a / 2) (b / 2)

halves_eight : (x : ℕ) → halves 8 x ≡ x / 2 ^ 8
halves_eight x = omega arith

-- A byte does not reach the bits above it.
xor_high : (a b : ℕ) → IsByte b → bit_xor a b / 2 ^ 8 ≡ a / 2 ^ 8
xor_high a b h =
    sym (halves_eight (bit_xor a b))
    ∙ halves-xor 8 a b
    ∙ ap (bit_xor (halves 8 a)) {y = 0} (omega arith)
    ∙ xor-zero (halves 8 a)
    ∙ halves_eight a

-- On bytes, crc32_step with the table that crc32_init builds is the bit-by-bit division by the CRC
-- polynomial, from any state.
pub step-eq-bitwise :
    (c : Crc32) (state : ℕ) (p : List ℕ)
    → All IsByte p
    → crc32_step (crc32_init c).table state p ≡ crc_bitwise state p
unfolding crc32_step crc_bitwise
step-eq-bitwise c state [] h = refl
step-eq-bitwise c state (b ∷ p) h =
    ap (λ (s : ℕ). crc32_step (crc32_init c).table s p)
      (ap (λ (x : ℕ). bit_xor x (state / 2 ^ 8))
          (table_entry c (bit_xor state b % 2 ^ 8) (omega arith))
        ∙ ap (bit_xor (crc32_rounds 8 (bit_xor state b % 2 ^ 8))) (sym (xor_high state b h.0))
        ∙ sym (rounds_split (bit_xor state b)))
    ∙ step-eq-bitwise c (crc32_rounds 8 (bit_xor state b)) p h.1

-- With any table and from any state, crc32_step over two blocks, one after the other, is
-- crc32_step over their concatenation.
pub step-append :
    (table : List ℕ) (state : ℕ) (p q : List ℕ)
    → crc32_step table state (p ++ q) ≡ crc32_step table (crc32_step table state p) q
unfolding crc32_step
step-append table state [] q = refl
step-append table state (b ∷ p) q =
    step-append table (bit_xor (get_or table (bit_xor state b % 2 ^ 8) 0) (state / 2 ^ 8)) p q
