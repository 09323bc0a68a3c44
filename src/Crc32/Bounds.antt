-- ===== src/Crc32/Bounds.antt =====
-- A checksum is a 32-bit word.
use config_wp.Base.{
  ℕ, zero, suc, ◌+◌, ◌/◌, ◌%◌, ◌^◌, ◌≤◌, ◌<◌, List, [], ◌∷◌, bit_xor, arith, get_or, All, ◌==◌,
  Bool-cases, inl, inr,
}
use native.Mathlib.Nat.{pow-suc}
use config_wp.Crc32.{
  Crc32, crc32_round, crc32_rounds, crc32_entries, crc32_init, crc32_step, crc32_start, crc32_end,
  crc32_final, crc32_poly,
}
use config_wp.Crc32.Xor.{xor_half}

abbrev pub IsWord : ℕ → Type 0
IsWord x = x < 2 ^ 32

xor-lt : (k a b : ℕ) → a < 2 ^ k → b < 2 ^ k → bit_xor a b < 2 ^ k
xor-lt zero zero zero h l = omega arith
xor-lt zero zero (suc b) h l = absurd (omega arith)
xor-lt zero (suc a) b h l = absurd (omega arith)
xor-lt (suc k) a b h l =
    let power = pow-suc 2 k in
    omega (arith, power, xor_half a b, xor-lt k (a / 2) (b / 2) (omega arith) (omega arith))

pub xor-IsWord : (a b : ℕ) → IsWord a → IsWord b → IsWord (bit_xor a b)
xor-IsWord = xor-lt 32

round-IsWord : (c : ℕ) → IsWord c → IsWord (crc32_round c)
unfolding crc32_round
round-IsWord c h = elim (Bool-cases (c % 2 == 0)) [
  | inl even ↦ rw even (xor-IsWord (c / 2) 0 (omega arith) (omega arith))
  | inr odd ↦ rw odd (xor-IsWord (c / 2) crc32_poly (omega arith) (omega arith))
]

rounds-IsWord : (n c : ℕ) → IsWord c → IsWord (crc32_rounds n c)
unfolding crc32_rounds
rounds-IsWord zero c h = h
rounds-IsWord (suc n) c h = rounds-IsWord n (crc32_round c) (round-IsWord c h)

entries-IsWord : (left i : ℕ) → left + i ≤ 2 ^ 32 → All IsWord (crc32_entries left i)
unfolding crc32_entries
entries-IsWord zero i h = tt
entries-IsWord (suc left) i h =
    (rounds-IsWord 8 i (omega arith), entries-IsWord left (i + 1) (omega arith))

pub init-IsWord : (c : Crc32) → All IsWord (crc32_init c).table
unfolding crc32_init
init-IsWord c = entries-IsWord 256 0 (omega arith)

get_or-IsWord : (table : List ℕ) (i : ℕ) → All IsWord table → IsWord (get_or table i 0)
get_or-IsWord [] i h = omega arith
get_or-IsWord (x ∷ table) zero h = h.0
get_or-IsWord (x ∷ table) (suc i) h = get_or-IsWord table i h.1

-- With a table of 32-bit words and a 32-bit state, crc32_step stays a 32-bit word.
pub step-IsWord :
    (table : List ℕ) (state : ℕ) (p : List ℕ)
    → All IsWord table
    → IsWord state
    → IsWord (crc32_step table state p)
unfolding crc32_step
step-IsWord table state [] t h = h
step-IsWord table state (b ∷ p) t h =
    step-IsWord table (bit_xor (get_or table (bit_xor state b % 2 ^ 8) 0) (state / 2 ^ 8)) p t
      (xor-IsWord _ _ (get_or-IsWord table (bit_xor state b % 2 ^ 8) t) (omega arith))

pub start-IsWord : IsWord crc32_start
unfolding crc32_start
start-IsWord = omega arith

pub end-IsWord : (state : ℕ) → IsWord state → IsWord (crc32_end state)
unfolding crc32_end
end-IsWord state h = xor-IsWord state crc32_final h (omega arith)
