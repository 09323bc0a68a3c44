-- ===== src/Json/RoundTrip.antt =====
-- What an export wrote, the import reads back: the fields.
pub mod Names
pub mod Inputs
pub mod Outputs
pub mod Kelvin
use Prim.Native.String.{String}
use config_wp.Base.{
  ℕ, zero, suc, ◌-◌, ◌%◌, ◌^◌, ◌<◌, ◌≤◌, ◌≡◌, refl, sym, ap, ◌∙◌, Bool, Option, none, some, List,
  [], ◌∷◌, ◌++◌, length, replicate, leb, arith, lt→leb,
}
use config_wp.Base.Int.{ℤ, InSigned, pos, negsuc}
use config_wp.Types.{config_name_len}
use config_wp.Json.{
  Json, Members, Number, null, bool, number, string, get_object_item, of_int, below, above,
  truncate,
}
use config_wp.Json.Enums.{Patched, ok, malformed, magnitude, ◌>>=◌}
use config_wp.Json.Patch.{
  string_field, uint_field, int_field, enum_field, patch_string, patch_uint, patch_int, patch_bool,
  patch_enum,
}
use config_wp.Json.Build.{c_string}

-- The bytes after the terminator are zeros, as the patchers leave them.
pub record IsTidy (name : List ℕ) : Type 0 where
  pub short : length (c_string name) < config_name_len
  pub padded :
      c_string name ++ 0 ∷ replicate (config_name_len - length (c_string name) - 1) 0 ≡ name

pub step :
    {A B : Type 0} {x : Patched A} (f : A → Patched B) {a : A} {y : Patched B}
    → x ≡ ok a
    → f a ≡ y
    → x >>= f ≡ y
step f e g = ap (λ x. x >>= f) e ∙ g

pub string_back :
    (name dst : List ℕ)
    → IsTidy name
    → string_field (some (string (c_string name))) dst config_name_len ≡ ok name
string_back name dst h =
    rw (lt→leb (length (c_string name)) config_name_len h.short) (ap ok h.padded)

pub byte_mod : (n : ℕ) → n < 2 ^ 8 → n % 2 ^ 8 ≡ n
byte_mod n h = omega arith

pub word_mod : (n : ℕ) → n < 2 ^ 16 → n % 2 ^ 16 ≡ n
word_mod n h = omega arith

pub uint_back :
    (n dst max_value : ℕ)
    → n ≤ max_value
    → uint_field (some (number (of_int (pos n)))) dst max_value ≡ ok n
unfolding below above truncate
uint_back n dst max_value h = ground arith

pub int_back :
    (v dst : ℤ) (h : ℕ)
    → InSigned (suc h) v
    → int_field (some (number (of_int v))) dst (negsuc h) (pos h) ≡ ok v
unfolding below above truncate
int_back (pos n) dst m h = ground arith
int_back (negsuc n) dst m h = ground arith

-- The value has a string, which reads as the value.
abbrev pub IsNamed : (to_str : ℕ → Option (List ℕ)) (from_fn : Json → Patched ℕ) (v : ℕ) → Type 0
IsNamed to_str from_fn v = (s : List ℕ) × (to_str v ≡ some s) × (from_fn (string s) ≡ ok v)
