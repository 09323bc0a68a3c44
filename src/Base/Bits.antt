-- ===== src/Base/Bits.antt =====
-- `|` and `^` on numbers of any width: the equation for the lowest digit, and disjoint fields.
use Prim.Native.Nat.{
  ℕ, zero, suc, ◌+◌, ◌-◌, ◌*◌, ◌/◌, ◌%◌, ◌^◌, ◌≤◌, ◌<◌, max, differ, digits, bitwise, bit_or,
  bit_xor, bit_or-bitwise, bit_xor-bitwise,
}
use mathlib.Core.Path.{◌≡◌, refl, ap, ap₂, sym, ◌∙◌}
use native.Mathlib.Nat.{pow-suc}
use native.Mathlib.Omega.{arith}

pub mul-two-pow : (q k : ℕ) → q * 2 ^ suc k ≡ 2 * (q * 2 ^ k)
mul-two-pow q k = omega (arith, ap (λ (t : ℕ). q * t) (pow-suc 2 k))

module _ (f : ℕ → ℕ → ℕ) where
  abbrev run : ℕ → ℕ → ℕ → ℕ
  run = digits (λ (y : ℕ). y) f

  -- A round more than the number of digits changes nothing, nor do several.
  run_more : (n a b : ℕ) → a ≤ n → run (suc n) a b ≡ run n a b
  run_more zero zero b h = refl
  run_more (suc n) zero b h = refl
  run_more zero (suc a) b h = absurd (omega arith)
  run_more (suc n) (suc a) b h =
      ap (λ (t : ℕ). t * 2 + f (suc a % 2) (b % 2)) (run_more n (suc a / 2) (b / 2) (omega arith))

  run_spare : (spare n a b : ℕ) → a ≤ n → run (spare + n) a b ≡ run n a b
  run_spare zero n a b h = ap (λ (t : ℕ). run t a b) {x = 0 + n} (omega arith)
  run_spare (suc spare) n a b h =
      ap (λ (t : ℕ). run t a b) {x = suc spare + n} {y = suc (spare + n)} (omega arith)
      ∙ run_more (spare + n) a b (omega arith)
      ∙ run_spare spare n a b h

  lowest :
      (a b : ℕ)
      → bitwise (λ (y : ℕ). y) f (suc a) b
        ≡ f (suc a % 2) (b % 2) + 2 * bitwise (λ (y : ℕ). y) f (suc a / 2) (b / 2)
  lowest a b =
      let half = suc a / 2 in
      let enough : run a half (b / 2) ≡ run half half (b / 2) =
        ap (λ (t : ℕ). run t half (b / 2)) {y = a - half + half} (omega arith)
        ∙ run_spare (a - half) half half (b / 2) (omega arith) in
      omega (arith, enough)

-- An operation on the binary digits that keeps a digit against a zero.
pub record IsDigitwise (op f : ℕ → ℕ → ℕ) : Type 0 where
  pub lowest_digit : (a b : ℕ) → op a b ≡ f (a % 2) (b % 2) + 2 * op (a / 2) (b / 2)
  pub left : (b : ℕ) → op 0 b ≡ b
  pub against_zero : (x : ℕ) → x < 2 → f x 0 ≡ x
  pub zero_against : (x : ℕ) → x < 2 → f 0 x ≡ x

module _ {op f : ℕ → ℕ → ℕ} (d : IsDigitwise op f) where
  -- The operation on a number and a multiple of two, one digit further.
  next_low : (m r s : ℕ) → s ≡ r / 2 + m → op (r / 2) m ≡ s → op r (2 * m) ≡ r + 2 * m
  next_low m r s e h =
      d.lowest_digit r (2 * m)
      ∙ ap₂ (λ (x y : ℕ). f (r % 2) x + 2 * op (r / 2) y) {x = 2 * m % 2} {y = 0} {u = 2 * m / 2}
          {v = m} (omega arith) (omega arith)
      ∙ omega (arith, d.against_zero (r % 2) (omega arith), h)

  next_high : (m r s : ℕ) → s ≡ m + r / 2 → op m (r / 2) ≡ s → op (2 * m) r ≡ 2 * m + r
  next_high m r s e h =
      d.lowest_digit (2 * m) r
      ∙ ap₂ (λ (x y : ℕ). f x (r % 2) + 2 * op y (r / 2)) {x = 2 * m % 2} {y = 0} {u = 2 * m / 2}
          {v = m} (omega arith) (omega arith)
      ∙ omega (arith, d.zero_against (r % 2) (omega arith), h)

  -- A field of `k` bits below one that starts at bit `k`, on either side.
  pub low_field : (k q r : ℕ) → r < 2 ^ k → op r (q * 2 ^ k) ≡ r + q * 2 ^ k
  low_field zero q (suc r) fits = absurd (omega arith)
  low_field zero q zero fits = omega (arith, d.left (q * 2 ^ 0))
  low_field (suc k) q r fits =
      let m = q * 2 ^ k in
      ap (op r) (mul-two-pow q k)
      ∙ next_low m r (r / 2 + m) refl (low_field k q (r / 2) (omega (arith, pow-suc 2 k)))
      ∙ ap (λ (t : ℕ). r + t) (sym (mul-two-pow q k))

  alone : (room a : ℕ) → a ≤ room → op a 0 ≡ a
  alone room zero h = d.left 0
  alone zero (suc a) h = absurd (omega arith)
  alone (suc room) (suc a) h = omega (
    arith,
    d.lowest_digit (suc a) 0,
    d.against_zero (suc a % 2) (omega arith),
    alone room (suc a / 2) (omega arith),
  )

  pub high_field : (k q r : ℕ) → r < 2 ^ k → op (q * 2 ^ k) r ≡ q * 2 ^ k + r
  high_field zero q (suc r) fits = absurd (omega arith)
  high_field zero q zero fits = omega (arith, alone (q * 2 ^ 0) (q * 2 ^ 0) (omega arith))
  high_field (suc k) q r fits =
      let m = q * 2 ^ k in
      ap (λ (t : ℕ). op t r) (mul-two-pow q k)
      ∙ next_high m r (m + r / 2) refl (high_field k q (r / 2) (omega (arith, pow-suc 2 k)))
      ∙ ap (λ (t : ℕ). t + r) (sym (mul-two-pow q k))

or_lowest : (a b : ℕ) → bit_or a b ≡ max (a % 2) (b % 2) + 2 * bit_or (a / 2) (b / 2)
or_lowest zero b = omega (arith, bit_or-bitwise 0 b, bit_or-bitwise 0 (b / 2))
or_lowest (suc a) b =
    omega (arith, bit_or-bitwise (suc a) b, bit_or-bitwise (suc a / 2) (b / 2), lowest max a b)

xor_lowest : (a b : ℕ) → bit_xor a b ≡ differ (a % 2) (b % 2) + 2 * bit_xor (a / 2) (b / 2)
xor_lowest zero b = omega (arith, bit_xor-bitwise 0 b, bit_xor-bitwise 0 (b / 2))
xor_lowest (suc a) b =
    omega (arith, bit_xor-bitwise (suc a) b, bit_xor-bitwise (suc a / 2) (b / 2), lowest differ a b)

differ-zero : (x : ℕ) → x < 2 → differ x 0 ≡ x
differ-zero zero h = refl
differ-zero (suc x) h = refl

pub or-IsDigitwise : IsDigitwise bit_or max
or-IsDigitwise = record {
  lowest_digit = or_lowest;
  left = λ b. bit_or-bitwise 0 b;
  against_zero = λ x h. omega arith;
  zero_against = λ x h. omega arith;
}

pub xor-IsDigitwise : IsDigitwise bit_xor differ
xor-IsDigitwise = record {
  lowest_digit = xor_lowest;
  left = λ b. bit_xor-bitwise 0 b;
  against_zero = differ-zero;
  zero_against = λ x h. refl;
}

pub bit_or_fields : (k q r : ℕ) → r < 2 ^ k → bit_or r (q * 2 ^ k) ≡ r + q * 2 ^ k
bit_or_fields = low_field or-IsDigitwise

pub bit_or_fields_high : (k q r : ℕ) → r < 2 ^ k → bit_or (q * 2 ^ k) r ≡ q * 2 ^ k + r
bit_or_fields_high = high_field or-IsDigitwise
