-- ===== src/Crc32/Xor.antt =====
-- The laws of `^` on numbers of any width.
use config_wp.Base.{
  ℕ, zero, suc, ◌+◌, ◌*◌, ◌/◌, ◌%◌, ◌^◌, ◌≤◌, ◌<◌, ◌≡◌, refl, ap, sym, ◌∙◌, bit_xor, arith,
}
use config_wp.Base.Bits.{xor-IsDigitwise, low_field}
use Prim.Native.Nat.{differ}

differ-lt : (x y : ℕ) → x < 2 → y < 2 → differ x y < 2
differ-lt zero y h k = k
differ-lt (suc x) zero h k = h
differ-lt (suc zero) (suc zero) h k = omega arith
differ-lt (suc zero) (suc (suc y)) h k = absurd (omega arith)
differ-lt (suc (suc x)) (suc y) h k = absurd (omega arith)

differ_comm : (x y : ℕ) → x < 2 → y < 2 → differ x y ≡ differ y x
differ_comm zero zero h k = refl
differ_comm zero (suc y) h k = refl
differ_comm (suc x) zero h k = refl
differ_comm (suc zero) (suc zero) h k = refl
differ_comm (suc zero) (suc (suc y)) h k = absurd (omega arith)
differ_comm (suc (suc x)) (suc y) h k = absurd (omega arith)

differ_assoc : (x y z : ℕ) → x < 2 → y < 2 → z < 2 → differ (differ x y) z ≡ differ x (differ y z)
differ_assoc zero y z h k l = refl
differ_assoc (suc x) zero z h k l = refl
differ_assoc (suc zero) (suc zero) zero h k l = refl
differ_assoc (suc zero) (suc zero) (suc zero) h k l = refl
differ_assoc (suc zero) (suc zero) (suc (suc z)) h k l = absurd (omega arith)
differ_assoc (suc zero) (suc (suc y)) z h k l = absurd (omega arith)
differ_assoc (suc (suc x)) (suc y) z h k l = absurd (omega arith)

pub xor_parity : (a b : ℕ) → bit_xor a b % 2 ≡ differ (a % 2) (b % 2)
xor_parity a b =
    omega (
      arith,
      xor-IsDigitwise.lowest_digit a b,
      differ-lt (a % 2) (b % 2) (omega arith) (omega arith),
    )

pub xor_half : (a b : ℕ) → bit_xor a b / 2 ≡ bit_xor (a / 2) (b / 2)
xor_half a b =
    omega (
      arith,
      xor-IsDigitwise.lowest_digit a b,
      differ-lt (a % 2) (b % 2) (omega arith) (omega arith),
    )

eq_of_digits : (x y : ℕ) → x / 2 ≡ y / 2 → x % 2 ≡ y % 2 → x ≡ y
eq_of_digits x y h k = omega arith

xor_comm_fuel : (n a b : ℕ) → a + b ≤ n → bit_xor a b ≡ bit_xor b a
xor_comm_fuel zero zero zero h = refl
xor_comm_fuel zero zero (suc b) h = absurd (omega arith)
xor_comm_fuel zero (suc a) b h = absurd (omega arith)
xor_comm_fuel (suc n) a b h =
    eq_of_digits _ _
      (xor_half a b ∙ xor_comm_fuel n (a / 2) (b / 2) (omega arith) ∙ sym (xor_half b a))
      (xor_parity a b
        ∙ differ_comm (a % 2) (b % 2) (omega arith) (omega arith)
        ∙ sym (xor_parity b a))

pub xor_comm : (a b : ℕ) → bit_xor a b ≡ bit_xor b a
xor_comm a b = xor_comm_fuel (a + b) a b (omega arith)

xor_assoc_fuel : (n a b c : ℕ) → a + b + c ≤ n → bit_xor (bit_xor a b) c ≡ bit_xor a (bit_xor b c)
xor_assoc_fuel zero zero zero zero h = refl
xor_assoc_fuel zero zero zero (suc c) h = absurd (omega arith)
xor_assoc_fuel zero zero (suc b) c h = absurd (omega arith)
xor_assoc_fuel zero (suc a) b c h = absurd (omega arith)
xor_assoc_fuel (suc n) a b c h =
    eq_of_digits _ _
      (xor_half (bit_xor a b) c
        ∙ ap (λ (x : ℕ). bit_xor x (c / 2)) (xor_half a b)
        ∙ xor_assoc_fuel n (a / 2) (b / 2) (c / 2) (omega arith)
        ∙ sym (xor_half a (bit_xor b c) ∙ ap (bit_xor (a / 2)) (xor_half b c)))
      (xor_parity (bit_xor a b) c
        ∙ ap (λ (x : ℕ). differ x (c % 2)) (xor_parity a b)
        ∙ differ_assoc (a % 2) (b % 2) (c % 2) (omega arith) (omega arith) (omega arith)
        ∙ sym (xor_parity a (bit_xor b c) ∙ ap (differ (a % 2)) (xor_parity b c)))

pub xor_assoc : (a b c : ℕ) → bit_xor (bit_xor a b) c ≡ bit_xor a (bit_xor b c)
xor_assoc a b c = xor_assoc_fuel (a + b + c) a b c (omega arith)

pub zero-xor : (a : ℕ) → bit_xor 0 a ≡ a
zero-xor a = Prim.Native.Nat.bit_xor-bitwise 0 a

pub xor-zero : (a : ℕ) → bit_xor a 0 ≡ a
xor-zero a = xor_comm a 0 ∙ zero-xor a

-- (a ^ b) ^ (c ^ d) with the middle terms swapped.
pub xor_middle :
    (a b c d : ℕ) → bit_xor (bit_xor a b) (bit_xor c d) ≡ bit_xor (bit_xor a c) (bit_xor b d)
xor_middle a b c d =
    xor_assoc a b (bit_xor c d)
    ∙ ap (bit_xor a)
        (sym (xor_assoc b c d) ∙ ap (λ (x : ℕ). bit_xor x d) (xor_comm b c) ∙ xor_assoc c b d)
    ∙ sym (xor_assoc a c (bit_xor b d))

-- `^` of disjoint fields is a sum.
pub xor_fields : (k q r : ℕ) → r < 2 ^ k → bit_xor r (q * 2 ^ k) ≡ r + q * 2 ^ k
xor_fields = low_field xor-IsDigitwise
