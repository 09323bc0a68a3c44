-- ===== src/Json.antt =====
-- What src/application/config_json.c sees of cJSON: a parsed document as a tree, and a number by
-- what its comparisons and casts can tell of a double. cJSON itself is not in the repository.
pub mod Enums
pub mod Patch
pub mod Build
pub mod RoundTrip
pub mod Report
pub mod Import
pub mod Export
pub mod Sized
pub mod Wire
pub mod Calls
pub mod Duplicates
pub mod Restore
use Prim.Native.Char.{code}
use Prim.Native.String.{String}
use text.Mathlib.Text.{◌==◌}
use config_wp.Base.{
  ℕ, zero, suc, ◌^◌, Bool, true, false, not, ◌&&◌, ◌||◌, Option, none, some, List, [], ◌∷◌, ltb,
  leb, if◌then◌else◌,
}
use config_wp.Base.{◌==◌ as ◌=ℕ=◌}
use config_wp.Base.Int.{ℤ, pos, negsuc}

-- The double ±(whole + f), where f is a fraction below one and `fraction` says whether it is not
-- zero. A value past every int, an infinity too, is one with a large `whole`; no text is a NaN.
pub record Number : Type 0 where
  pub negative : Bool
  pub whole : ℕ
  pub fraction : Bool

mutual
  pub data Json : Type 0 where
    null : Json
    bool : Bool → Json
    number : Number → Json
    string : List ℕ → Json
    array : Items → Json
    object : Members → Json

  pub data Items : Type 0 where
    no_items : Items
    item : Json → Items → Items

  pub data Members : Type 0 where
    no_members : Members
    member : String → Json → Members → Members

-- The bytes of an ASCII text.
abbrev pub codes : String → List ℕ
codes String.[] = []
codes (String.◌∷◌ c s) = code c ∷ codes s

-- cJSON_GetObjectItemCaseSensitive: the first member of that name.
abbrev pub get_object_item : Members → String → Option Json
get_object_item no_members key = none
get_object_item (member k j rest) key = if k == key then some j else get_object_item rest key

-- The double of an integer, as in `(double)x`.
abbrev pub of_int : ℤ → Number
of_int (pos n) = record { negative = false; whole = n; fraction = false }
of_int (negsuc n) = record { negative = true; whole = suc n; fraction = false }

-- `v < (double)m`
unfoldable pub below : Number → ℤ → Bool
below v (pos m) =
    if v.negative then not (m =ℕ= 0 && v.whole =ℕ= 0 && not v.fraction) else ltb v.whole m
below v (negsuc m) = v.negative && (ltb (suc m) v.whole || (suc m =ℕ= v.whole && v.fraction))

-- `v > (double)m`
unfoldable pub above : Number → ℤ → Bool
above v (pos m) = not v.negative && (ltb m v.whole || (m =ℕ= v.whole && v.fraction))
above v (negsuc m) = if v.negative then leb v.whole m else true

abbrev negate : ℕ → ℤ
negate zero = pos 0
negate (suc n) = negsuc n

-- The cast of a double to an integer type that has room for it: it drops the fraction.
unfoldable pub truncate : Number → ℤ
truncate v = if v.negative then negate v.whole else pos v.whole

-- `(int)v` is undefined behaviour outside the range of int.
unfoldable pub fits_int : Number → Bool
fits_int v = if v.negative then leb v.whole (2 ^ 31) else ltb v.whole (2 ^ 31)
