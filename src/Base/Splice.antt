-- ===== src/Base/Splice.antt =====
-- A block of memory as a list of bytes: a write of some bytes at an offset, and what reads see of it.
use config_wp.Base.Lists.{
  length, take, drop, length-append, length-take, length-drop, take-append, take-append_le,
  drop-append, drop-drop, drop-append_ge, take-take, take-drop_comm,
}
use Prim.Native.Nat.{ℕ, ◌+◌, ◌-◌, ◌≤◌}
use mathlib.Core.Path.{◌≡◌, refl, ap, sym, ◌∙◌}
use mathlib.Core.List.{List, ◌++◌, append_assoc}
use native.Mathlib.Omega.{arith}

module _ {ℓ} {A : Type ℓ} where
  -- memcpy(&xs[off], bs, n) for n = length bs; past the end it would make the block longer.
  unfoldable pub splice : ℕ → List A → List A → List A
  splice off bs xs = take off xs ++ (bs ++ drop (off + length bs) xs)

  -- memcpy(dst, &xs[off], n)
  unfoldable pub slice : ℕ → ℕ → List A → List A
  slice off n xs = take n (drop off xs)

  pub length-splice :
      (off : ℕ) (bs xs : List A)
      → off + length bs ≤ length xs
      → length (splice off bs xs) ≡ length xs
  unfolding splice
  length-splice off bs xs h = omega (
    arith,
    length-append (take off xs) (bs ++ drop (off + length bs) xs),
    length-append bs (drop (off + length bs) xs),
    length-take off xs,
    length-drop (off + length bs) xs,
  )

  pub length-slice : (off n : ℕ) (xs : List A) → off + n ≤ length xs → length (slice off n xs) ≡ n
  unfolding slice
  length-slice off n xs h = omega (arith, length-take n (drop off xs), length-drop off xs)

  -- A read of exactly what was written.
  pub slice-splice :
      (off n : ℕ) (bs xs : List A)
      → off ≤ length xs
      → n ≡ length bs
      → slice off n (splice off bs xs) ≡ bs
  unfolding slice splice
  slice-splice off n bs xs h e =
      ap (take n) (
        drop-append off (take off xs) (bs ++ drop (off + length bs) xs)
          (omega (arith, length-take off xs)))
      ∙ take-append n bs (drop (off + length bs) xs) e

  -- A read that ends before the write.
  pub slice-splice_below :
      (off o n : ℕ) (bs xs : List A)
      → off ≤ length xs
      → o + n ≤ off
      → slice o n (splice off bs xs) ≡ slice o n xs
  unfolding slice splice
  slice-splice_below off o n bs xs h e =
      take-drop_comm n o (o + n) (take off xs ++ (bs ++ drop (off + length bs) xs)) refl
      ∙ ap (drop o) (
          take-append_le (o + n) (take off xs) (bs ++ drop (off + length bs) xs)
            (omega (arith, length-take off xs))
          ∙ take-take (o + n) off xs e)
      ∙ sym (take-drop_comm n o (o + n) xs refl)

  -- A read that starts behind the write.
  pub slice-splice_above :
      (off o n : ℕ) (bs xs : List A)
      → off + length bs ≤ length xs
      → off + length bs ≤ o
      → slice o n (splice off bs xs) ≡ slice o n xs
  unfolding slice splice
  slice-splice_above off o n bs xs h e = ap (take n) (
      drop-append_ge o (o - off) (take off xs) (bs ++ drop (off + length bs) xs)
        (omega (arith, length-take off xs))
      ∙ drop-append_ge (o - off) (o - off - length bs) bs (drop (off + length bs) xs) (omega arith)
      ∙ drop_again)
    where
      drop_again : drop (o - off - length bs) (drop (off + length bs) xs) ≡ drop o xs
      drop_again = drop-drop (o - off - length bs) (off + length bs) o xs (omega arith)

  -- The prefix up to the end of the write.
  pub take-splice :
      (off n : ℕ) (bs xs : List A)
      → off ≤ length xs
      → n ≡ off + length bs
      → take n (splice off bs xs) ≡ take off xs ++ bs
  unfolding splice
  take-splice off n bs xs h e =
      ap (take n) (sym (append_assoc (take off xs) bs (drop (off + length bs) xs)))
      ∙ take-append n (take off xs ++ bs) (drop (off + length bs) xs)
          (omega (arith, length-append (take off xs) bs, length-take off xs))
