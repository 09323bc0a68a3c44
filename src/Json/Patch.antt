-- ===== src/Json/Patch.antt =====
-- The field patchers. Each reads one member of a record's object and gives the field's new value:
-- the old one where the member is missing or null.
pub mod Records
use Prim.Native.String.{String}
use config_wp.Base.{
  ℕ, ◌-◌, Bool, Option, none, some, List, [], ◌∷◌, ◌++◌, replicate, length, leb, ◌||◌,
  if◌then◌else◌,
}
use config_wp.Base.Int.{ℤ, pos, negsuc}
use config_wp.Json.{
  Json, Members, Number, null, bool, number, string, get_object_item, below, above, truncate,
}
use config_wp.Json.Enums.{Patched, ok, malformed, magnitude}

-- The bytes of `dst` after the copy: the string, its terminator and zeros to the end.
abbrev pub string_field : Option Json → List ℕ → ℕ → Patched (List ℕ)
string_field none dst room = ok dst
string_field (some null) dst room = ok dst
string_field (some (string s)) dst room =
    if leb room (length s) then malformed else ok (s ++ 0 ∷ replicate (room - length s - 1) 0)
string_field (some _) dst room = malformed

unfoldable pub patch_string : Members → String → List ℕ → ℕ → Patched (List ℕ)
patch_string obj key dst room = string_field (get_object_item obj key) dst room

abbrev pub uint_value : Number → ℕ → Patched ℕ
uint_value v max_value =
    if below v (pos 0) || above v (pos max_value) then malformed else ok (magnitude (truncate v))

abbrev pub uint_field : Option Json → ℕ → ℕ → Patched ℕ
uint_field none dst max_value = ok dst
uint_field (some null) dst max_value = ok dst
uint_field (some (number v)) dst max_value = uint_value v max_value
uint_field (some _) dst max_value = malformed

unfoldable pub patch_uint : Members → String → ℕ → ℕ → Patched ℕ
patch_uint obj key dst max_value = uint_field (get_object_item obj key) dst max_value

abbrev pub int_value : Number → ℤ → ℤ → Patched ℤ
int_value v min_value max_value =
    if below v min_value || above v max_value then malformed else ok (truncate v)

abbrev pub int_field : Option Json → ℤ → ℤ → ℤ → Patched ℤ
int_field none dst min_value max_value = ok dst
int_field (some null) dst min_value max_value = ok dst
int_field (some (number v)) dst min_value max_value = int_value v min_value max_value
int_field (some _) dst min_value max_value = malformed

unfoldable pub patch_int : Members → String → ℤ → ℤ → ℤ → Patched ℤ
patch_int obj key dst min_value max_value =
    int_field (get_object_item obj key) dst min_value max_value

abbrev pub bool_field : Option Json → Bool → Patched Bool
bool_field none dst = ok dst
bool_field (some null) dst = ok dst
bool_field (some (bool b)) dst = ok b
bool_field (some _) dst = malformed

unfoldable pub patch_bool : Members → String → Bool → Patched Bool
patch_bool obj key dst = bool_field (get_object_item obj key) dst

abbrev pub enum_field : Option Json → ℕ → (Json → Patched ℕ) → Patched ℕ
enum_field none dst from_fn = ok dst
enum_field (some null) dst from_fn = ok dst
enum_field (some j) dst from_fn = from_fn j

-- PATCH_ENUM
unfoldable pub patch_enum : Members → String → ℕ → (Json → Patched ℕ) → Patched ℕ
patch_enum obj key dst from_fn = enum_field (get_object_item obj key) dst from_fn
