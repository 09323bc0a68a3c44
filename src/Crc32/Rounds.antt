-- ===== src/Crc32/Rounds.antt =====
-- Eight rounds of the bitwise algorithm are linear, and shift a high part down unchanged.
use config_wp.Base.{
  ℕ, zero, suc, ◌*◌, ◌/◌, ◌%◌, ◌^◌, ◌<◌, ◌≡◌, refl, ap, sym, ◌∙◌, bit_xor, arith, ◌==◌,
  if◌then◌else◌,
}
use config_wp.Base.Bits.{mul-two-pow}
use config_wp.Crc32.{crc32_round, crc32_rounds, crc32_poly}
use config_wp.Crc32.Xor.{xor_half, xor_parity, xor_middle, xor-zero, xor_fields}
use Prim.Native.Nat.{differ}

abbrev feedback : ℕ → ℕ
feedback p = if p == 0 then 0 else crc32_poly

feedback-differ :
    (p q : ℕ) → p < 2 → q < 2 → feedback (differ p q) ≡ bit_xor (feedback p) (feedback q)
feedback-differ zero zero h k = refl
feedback-differ zero (suc zero) h k = refl
feedback-differ zero (suc (suc q)) h k = absurd (omega arith)
feedback-differ (suc zero) zero h k = refl
feedback-differ (suc zero) (suc zero) h k = refl
feedback-differ (suc zero) (suc (suc q)) h k = absurd (omega arith)
feedback-differ (suc (suc p)) q h k = absurd (omega arith)

round-xor : (a b : ℕ) → crc32_round (bit_xor a b) ≡ bit_xor (crc32_round a) (crc32_round b)
unfolding crc32_round
round-xor a b =
    ap (λ (x : ℕ). bit_xor x (feedback (bit_xor a b % 2))) (xor_half a b)
    ∙ ap (bit_xor (bit_xor (a / 2) (b / 2)))
        (ap feedback (xor_parity a b) ∙ feedback-differ (a % 2) (b % 2) (omega arith) (omega arith))
    ∙ xor_middle (a / 2) (b / 2) (feedback (a % 2)) (feedback (b % 2))

rounds-xor :
    (n a b : ℕ) → crc32_rounds n (bit_xor a b) ≡ bit_xor (crc32_rounds n a) (crc32_rounds n b)
unfolding crc32_rounds
rounds-xor zero a b = refl
rounds-xor (suc n) a b =
    ap (crc32_rounds n) (round-xor a b) ∙ rounds-xor n (crc32_round a) (crc32_round b)

round-double : (h : ℕ) → crc32_round (2 * h) ≡ h
unfolding crc32_round
round-double h =
    ap (λ (p : ℕ). bit_xor (2 * h / 2) (feedback p)) {y = 0} (omega arith)
    ∙ xor-zero (2 * h / 2)
    ∙ omega arith

rounds-shift : (n h : ℕ) → crc32_rounds n (h * 2 ^ n) ≡ h
unfolding crc32_rounds
rounds-shift zero h = omega arith
rounds-shift (suc n) h =
    ap (λ (x : ℕ). crc32_rounds n (crc32_round x)) (mul-two-pow h n)
    ∙ ap (crc32_rounds n) (round-double (h * 2 ^ n))
    ∙ rounds-shift n h

-- The rounds see the low byte; the rest is shifted down.
pub rounds_split : (x : ℕ) → crc32_rounds 8 x ≡ bit_xor (crc32_rounds 8 (x % 2 ^ 8)) (x / 2 ^ 8)
rounds_split x =
    ap (crc32_rounds 8) {y = bit_xor (x % 2 ^ 8) (x / 2 ^ 8 * 2 ^ 8)}
      (sym (xor_fields 8 (x / 2 ^ 8) (x % 2 ^ 8) (omega arith) ∙ omega arith))
    ∙ rounds-xor 8 (x % 2 ^ 8) (x / 2 ^ 8 * 2 ^ 8)
    ∙ ap (bit_xor (crc32_rounds 8 (x % 2 ^ 8))) (rounds-shift 8 (x / 2 ^ 8))
