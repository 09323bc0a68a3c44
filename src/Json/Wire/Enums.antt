-- ===== src/Json/Wire/Enums.antt =====
-- An enum that is read of a sized document is one of its values.
use Prim.Native.String.{String}
use config_wp.Base.{
  ℕ, zero, suc, ◌+◌, ◌^◌, ◌<◌, ◌≤◌, ◌≡◌, refl, subst, Bool, true, false, ◌||◌, inl, inr, Option,
  none, some, List, leb, arith, Bool-cases, leb→lt,
}
use config_wp.Json.{
  Json, Members, Number, null, bool, number, string, array, object, get_object_item, truncate,
  fits_int,
}
use config_wp.Json.Enums.{Patched, magnitude, is_negative, find_name, is_named, enum_from_json}
use config_wp.Json.Patch.{enum_field, patch_enum}
use config_wp.Json.Sized.{IsSized, HasSized, Holds, holds_mono, is_wide, item-IsSized}

find_name_lem :
    (n v : ℕ) (to_str : ℕ → Option (List ℕ)) (s : List ℕ)
    → Holds (λ x. x < v + n) (find_name n v to_str s)
unfolding find_name
find_name_lem zero v to_str s = tt
find_name_lem (suc n) v to_str s = elim (Bool-cases (is_named (to_str v) s)) [
  | inl named ↦ rw named (omega arith)
  | inr other ↦ rw other (
      subst (λ (m : ℕ). Holds (λ x. x < m) (find_name n (suc v) to_str s)) (omega arith)
        (find_name_lem n (suc v) to_str s))
]

or_right : (a b : Bool) → (a || b) ≡ false → b ≡ false
or_right true b e = absurd cc
or_right false b e = e

enum_number_lem :
    (v : Number) (count : ℕ) (to_str : ℕ → Option (List ℕ))
    → fits_int v ≡ true
    → Holds (λ x. x < count) (enum_from_json (number v) count to_str)
unfolding enum_from_json
enum_number_lem v count to_str sized =
    elim (Bool-cases (is_negative (truncate v) || leb count (magnitude (truncate v)))) [
      | inl out ↦ rw (sized, out) tt
      | inr inside ↦
          rw (sized, inside)
            (leb→lt count (magnitude (truncate v))
              (or_right (is_negative (truncate v)) (leb count (magnitude (truncate v))) inside))
    ]

-- Of an item that is sized, an enum is read without undefined behaviour, and below its count.
pub enum_from_json_lem :
    (j : Json) (count : ℕ) (to_str : ℕ → Option (List ℕ))
    → IsSized j
    → Holds (λ x. x < count) (enum_from_json j count to_str)
unfolding enum_from_json
enum_from_json_lem (number v) count to_str sized = enum_number_lem v count to_str sized
enum_from_json_lem (string s) count to_str sized =
    holds_mono (λ x. x < 0 + count) (λ x. x < count) (find_name count 0 to_str s)
      (λ x h. omega arith) (find_name_lem count 0 to_str s)
enum_from_json_lem null count to_str sized = tt
enum_from_json_lem (bool b) count to_str sized = tt
enum_from_json_lem (array items) count to_str sized = tt
enum_from_json_lem (object obj) count to_str sized = tt

byte_of :
    (x : Patched ℕ) (count : ℕ)
    → count ≤ 2 ^ 8
    → Holds (λ n. n < count) x
    → Holds (λ n. n < 2 ^ 8) x
byte_of x count small h = holds_mono (λ n. n < count) (λ n. n < 2 ^ 8) x (λ n k. omega arith) h

enum_field_lem :
    (o : Option Json) (dst count : ℕ) (from_fn : Json → Patched ℕ)
    → ((j : Json) → o ≡ some j → IsSized j)
    → ((j : Json) → IsSized j → Holds (λ x. x < count) (from_fn j))
    → count ≤ 2 ^ 8
    → dst < 2 ^ 8
    → Holds (λ x. x < 2 ^ 8) (enum_field o dst from_fn)
enum_field_lem none dst count from_fn found reads small h = h
enum_field_lem (some null) dst count from_fn found reads small h = h
enum_field_lem (some (bool b)) dst count from_fn found reads small h =
    byte_of (from_fn (bool b)) count small (reads (bool b) tt)
enum_field_lem (some (number v)) dst count from_fn found reads small h =
    byte_of (from_fn (number v)) count small (reads (number v) (found (number v) refl))
enum_field_lem (some (string s)) dst count from_fn found reads small h =
    byte_of (from_fn (string s)) count small (reads (string s) tt)
enum_field_lem (some (array items)) dst count from_fn found reads small h =
    byte_of (from_fn (array items)) count small (reads (array items) (found (array items) refl))
enum_field_lem (some (object obj)) dst count from_fn found reads small h =
    byte_of (from_fn (object obj)) count small (reads (object obj) (found (object obj) refl))

pub enum_IsByte :
    (obj : Members) (key : String) (dst count : ℕ) (from_fn : Json → Patched ℕ)
    → HasSized obj
    → is_wide key ≡ false
    → ((j : Json) → IsSized j → Holds (λ x. x < count) (from_fn j))
    → count ≤ 2 ^ 8
    → dst < 2 ^ 8
    → Holds (λ x. x < 2 ^ 8) (patch_enum obj key dst from_fn)
unfolding patch_enum
enum_IsByte obj key dst count from_fn sized narrow reads small h =
    enum_field_lem (get_object_item obj key) dst count from_fn
      (λ j e. item-IsSized obj key j sized narrow e) reads small h
