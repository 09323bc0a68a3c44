-- ===== src/Codec/Cursor.antt =====
-- The little-endian byte helpers. A `put_*` gives the bytes that it writes at the cursor; a `get_*`
-- reads at the cursor and moves it, and `none` is a read past the end of the memory.
use config_wp.Base.{
  ℕ, zero, suc, ◌+◌, ◌*◌, ◌/◌, ◌%◌, ◌^◌, ◌<◌, ◌≡◌, refl, ap, Option, none, some, List, [], ◌∷◌,
  ◌++◌, length, take, bit_or, arith, take_all, length-take,
}
use config_wp.Base.Bits.{bit_or_fields}
use config_wp.Base.Int.{
  ℤ, InSigned, to_unsigned, of_unsigned, of_to_unsigned16, of_to_unsigned32, to_unsigned16-lt,
  to_unsigned32-lt,
}

-- `x & 0xFF` and `x >> k`
abbrev pub low_byte : ℕ → ℕ
low_byte x = x % 2 ^ 8

unfoldable pub put_u8 : ℕ → List ℕ
put_u8 v = low_byte v ∷ []

unfoldable pub put_u16 : ℕ → List ℕ
put_u16 v = low_byte v ∷ low_byte (v / 2 ^ 8) ∷ []

unfoldable pub put_u32 : ℕ → List ℕ
put_u32 v = low_byte v ∷ low_byte (v / 2 ^ 8) ∷ low_byte (v / 2 ^ 16) ∷ low_byte (v / 2 ^ 24) ∷ []

unfoldable pub put_i16 : ℤ → List ℕ
put_i16 v = put_u16 (to_unsigned (2 ^ 16) v)

unfoldable pub put_i32 : ℤ → List ℕ
put_i32 v = put_u32 (to_unsigned (2 ^ 32) v)

unfoldable pub put_bytes : List ℕ → ℕ → List ℕ
put_bytes src n = take n src

-- A read moves the cursor, which is the memory that is left.
abbrev pub Read : Type 0 → Type 0
Read A = List ℕ → Option (A × List ℕ)

infixl 5 ◌>>=◌
abbrev pub ◌>>=◌ : {A B : Type 0} → Read A → (A → Read B) → Read B
◌>>=◌ m f p = elim (m p) [ none ↦ none | some (a, q) ↦ f a q ]

abbrev pub pure : {A : Type 0} → A → Read A
pure a p = some (a, p)

unfoldable pub get_u8 : Read ℕ
get_u8 [] = none
get_u8 (b ∷ p) = some (b, p)

unfoldable pub get_u16 : Read ℕ
get_u16 (b0 ∷ b1 ∷ p) = some (bit_or b0 (b1 * 2 ^ 8), p)
get_u16 _ = none

unfoldable pub get_u32 : Read ℕ
get_u32 (b0 ∷ b1 ∷ b2 ∷ b3 ∷ p) =
    some (bit_or (bit_or (bit_or b0 (b1 * 2 ^ 8)) (b2 * 2 ^ 16)) (b3 * 2 ^ 24), p)
get_u32 _ = none

unfoldable pub get_i16 : Read ℤ
get_i16 = do v ← get_u16; pure (of_unsigned (2 ^ 16) (2 ^ 15) v)

unfoldable pub get_i32 : Read ℤ
get_i32 = do v ← get_u32; pure (of_unsigned (2 ^ 32) (2 ^ 31) v)

unfoldable pub get_bytes : ℕ → Read (List ℕ)
get_bytes zero p = some ([], p)
get_bytes (suc n) [] = none
get_bytes (suc n) (b ∷ p) = (do bs ← get_bytes n; pure (b ∷ bs)) p

pub get_u8-put_u8 : (v : ℕ) (p : List ℕ) → v < 2 ^ 8 → get_u8 (put_u8 v ++ p) ≡ some (v, p)
unfolding get_u8 put_u8
get_u8-put_u8 v p h = ap (λ (b : ℕ). some (b, p)) (omega arith)

pub get_u16-put_u16 : (v : ℕ) (p : List ℕ) → v < 2 ^ 16 → get_u16 (put_u16 v ++ p) ≡ some (v, p)
unfolding get_u16 put_u16
get_u16-put_u16 v p h =
    ap (λ (b : ℕ). some (b, p))
      (omega (arith, bit_or_fields 8 (low_byte (v / 2 ^ 8)) (low_byte v) (omega arith)))

u32_fields :
    (a b c d : ℕ)
    → a < 2 ^ 8
    → b < 2 ^ 8
    → c < 2 ^ 8
    → bit_or (bit_or (bit_or a (b * 2 ^ 8)) (c * 2 ^ 16)) (d * 2 ^ 24)
      ≡ a + b * 2 ^ 8 + c * 2 ^ 16 + d * 2 ^ 24
u32_fields a b c d ha hb hc = rw (bit_or_fields 8 b a ha) (
    rw (bit_or_fields 16 c (a + b * 2 ^ 8) (omega arith))
      (bit_or_fields 24 d (a + b * 2 ^ 8 + c * 2 ^ 16) (omega arith)))

pub get_u32-put_u32 : (v : ℕ) (p : List ℕ) → v < 2 ^ 32 → get_u32 (put_u32 v ++ p) ≡ some (v, p)
unfolding get_u32 put_u32
get_u32-put_u32 v p h =
    ap (λ (b : ℕ). some (b, p))
      (omega (
        arith,
        u32_fields (low_byte v) (low_byte (v / 2 ^ 8)) (low_byte (v / 2 ^ 16))
            (low_byte (v / 2 ^ 24)) (omega arith) (omega arith) (omega arith),
      ))

pub get_i16-put_i16 :
    (v : ℤ) (p : List ℕ) → InSigned (2 ^ 15) v → get_i16 (put_i16 v ++ p) ≡ some (v, p)
unfolding get_i16 put_i16
get_i16-put_i16 v p h =
    rw (get_u16-put_u16 (to_unsigned (2 ^ 16) v) p (to_unsigned16-lt v), ◌>>=◌)
      (ap (λ (b : ℤ). some (b, p)) (of_to_unsigned16 v h))

pub get_i32-put_i32 :
    (v : ℤ) (p : List ℕ) → InSigned (2 ^ 31) v → get_i32 (put_i32 v ++ p) ≡ some (v, p)
unfolding get_i32 put_i32
get_i32-put_i32 v p h =
    rw (get_u32-put_u32 (to_unsigned (2 ^ 32) v) p (to_unsigned32-lt v), ◌>>=◌)
      (ap (λ (b : ℤ). some (b, p)) (of_to_unsigned32 v h))

get_bytes-append : (n : ℕ) (bs p : List ℕ) → length bs ≡ n → get_bytes n (bs ++ p) ≡ some (bs, p)
unfolding get_bytes
get_bytes-append zero [] p h = refl
get_bytes-append zero (b ∷ bs) p h = absurd (omega arith)
get_bytes-append (suc n) [] p h = absurd (omega arith)
get_bytes-append (suc n) (b ∷ bs) p h = rw (get_bytes-append n bs p (omega arith), ◌>>=◌)

pub get_bytes-put_bytes :
    (n : ℕ) (bs p : List ℕ) → length bs ≡ n → get_bytes n (put_bytes bs n ++ p) ≡ some (bs, p)
unfolding put_bytes
get_bytes-put_bytes n bs p h = rw (take_all n bs (omega arith)) (get_bytes-append n bs p h)

pub length-put_bytes : (n : ℕ) (bs : List ℕ) → length bs ≡ n → length (put_bytes bs n) ≡ n
unfolding put_bytes
length-put_bytes n bs h = omega (arith, length-take n bs)
