-- ===== src/Json/Wire.antt =====
-- What the patchers read of a sized document is in the range of its field.
pub mod Enums
pub mod Ranges
pub mod Inputs
pub mod Outputs
use Prim.Native.String.{String}
use text.Mathlib.Text.{◌==◌}
use text.Mathlib.TextEquality.{eq_iff}
use config_wp.Base.{
  ℕ, zero, suc, ◌+◌, ◌-◌, ◌^◌, ◌<◌, ◌≤◌, ◌≡◌, refl, sym, ap, ◌∙◌, subst, Bool, true, false, ◌||◌,
  not, ◌⊎◌, inl, inr, Option, none, some, List, [], ◌∷◌, ◌++◌, length, get_elem?, replicate, leb,
  arith, Bool-cases, length-append, length-replicate, if◌then◌else◌, leb→lt,
}
use config_wp.Base.Int.{ℤ, InSigned, pos, negsuc}
use config_wp.Types.{config_name_len}
use config_wp.Types.Wire.{IsName}
use config_wp.Json.{
  Json, Members, Items, Number, null, bool, number, string, array, object, no_members, member,
  no_items, item, get_object_item, below, above, truncate, fits_int,
}
use config_wp.Json.Enums.{
  Patched, ok, malformed, undefined, ◌>>=◌, magnitude, is_negative, find_name, is_named,
  enum_from_json,
}
use config_wp.Json.Patch.{
  string_field, uint_field, uint_value, int_field, int_value, bool_field, enum_field, patch_string,
  patch_uint, patch_int, patch_bool, patch_enum,
}
use config_wp.Json.Sized.{IsSized, HasSized, Holds, holds_bind, holds_mono, is_wide, item-IsSized}

get_elem?-replicate : (n i : ℕ) → i < n → get_elem? (replicate {A = ℕ} n 0) i ≡ some 0
get_elem?-replicate zero i h = absurd (omega arith)
get_elem?-replicate (suc n) zero h = refl
get_elem?-replicate (suc n) (suc i) h = get_elem?-replicate n i (omega arith)

get_elem?-padded :
    (s : List ℕ) (n i : ℕ)
    → length s ≤ i
    → i < length s + suc n
    → get_elem? (s ++ 0 ∷ replicate n 0) i ≡ some 0
get_elem?-padded [] n i above_it below_it = get_elem?-replicate (suc n) i (omega arith)
get_elem?-padded (x ∷ s) n zero above_it below_it = absurd (omega arith)
get_elem?-padded (x ∷ s) n (suc i) above_it below_it =
    get_elem?-padded s n i (omega arith) (omega arith)

padded_IsName :
    (s : List ℕ)
    → length s < config_name_len
    → IsName (s ++ 0 ∷ replicate (config_name_len - length s - 1) 0)
padded_IsName s h =
    let n = config_name_len - length s - 1 in
    record {
      full = omega (arith, length-append s (0 ∷ replicate n 0), length-replicate {A = ℕ} n 0);
      terminated = get_elem?-padded s n 15 (omega arith) (omega arith);
    }

pub string_IsName :
    (obj : Members) (key : String) (dst : List ℕ)
    → IsName dst
    → Holds IsName (patch_string obj key dst config_name_len)
unfolding patch_string
string_IsName obj key dst h = field (get_object_item obj key)
  where
    field : (j : Option Json) → Holds IsName (string_field j dst config_name_len)
    field none = h
    field (some null) = h
    field (some (string s)) = elim (Bool-cases (leb config_name_len (length s))) [
      | inl long ↦ rw long tt
      | inr fits ↦ rw fits (padded_IsName s (leb→lt config_name_len (length s) fits))
    ]
    field (some (bool b)) = tt
    field (some (number v)) = tt
    field (some (array items)) = tt
    field (some (object m)) = tt

uint_range :
    (negative : Bool) (whole : ℕ) (fraction : Bool) (max_value : ℕ)
    → let v : Number = record { negative = negative; whole = whole; fraction = fraction } in
      (below v (pos 0) || above v (pos max_value)) ≡ false → magnitude (truncate v) ≤ max_value
unfolding below above truncate
uint_range true zero fraction m h = omega arith
uint_range true (suc whole) fraction m h = omega arith
uint_range false whole fraction m h = ground arith

uint_value_lem : (v : Number) (max_value : ℕ) → Holds (λ n. n ≤ max_value) (uint_value v max_value)
uint_value_lem v m = elim (Bool-cases (below v (pos 0) || above v (pos m))) [
  | inl out ↦ rw out tt
  | inr inside ↦ rw inside (uint_range v.negative v.whole v.fraction m inside)
]

int_range :
    (negative : Bool) (whole : ℕ) (fraction : Bool) (m : ℕ)
    → let v : Number = record { negative = negative; whole = whole; fraction = fraction } in
      (below v (negsuc m) || above v (pos m)) ≡ false → InSigned (suc m) (truncate v)
unfolding below above truncate
int_range true zero fraction m h = omega arith
int_range true (suc whole) fraction m h = ground arith
int_range false whole fraction m h = ground arith

int_value_lem : (v : Number) (m : ℕ) → Holds (InSigned (suc m)) (int_value v (negsuc m) (pos m))
int_value_lem v m = elim (Bool-cases (below v (negsuc m) || above v (pos m))) [
  | inl out ↦ rw out tt
  | inr inside ↦ rw inside (int_range v.negative v.whole v.fraction m inside)
]

pub uint_IsWord :
    (obj : Members) (key : String) (dst max_value : ℕ)
    → dst ≤ max_value
    → Holds (λ n. n ≤ max_value) (patch_uint obj key dst max_value)
unfolding patch_uint
uint_IsWord obj key dst max_value h = field (get_object_item obj key)
  where
    field : (j : Option Json) → Holds (λ n. n ≤ max_value) (uint_field j dst max_value)
    field none = h
    field (some null) = h
    field (some (number v)) = uint_value_lem v max_value
    field (some (bool b)) = tt
    field (some (string s)) = tt
    field (some (array items)) = tt
    field (some (object m)) = tt

pub int_InSigned :
    (obj : Members) (key : String) (dst : ℤ) (h : ℕ)
    → InSigned (suc h) dst
    → Holds (InSigned (suc h)) (patch_int obj key dst (negsuc h) (pos h))
unfolding patch_int
int_InSigned obj key dst m h = field (get_object_item obj key)
  where
    field : (j : Option Json) → Holds (InSigned (suc m)) (int_field j dst (negsuc m) (pos m))
    field none = h
    field (some null) = h
    field (some (number v)) = int_value_lem v m
    field (some (bool b)) = tt
    field (some (string s)) = tt
    field (some (array items)) = tt
    field (some (object m)) = tt

pub bool_holds :
    (obj : Members) (key : String) (dst : Bool)
    → Holds (λ (b : Bool). Unit) (patch_bool obj key dst)
unfolding patch_bool
bool_holds obj key dst = field (get_object_item obj key)
  where
    field : (j : Option Json) → Holds (λ (b : Bool). Unit) (bool_field j dst)
    field none = tt
    field (some null) = tt
    field (some (number v)) = tt
    field (some (bool b)) = tt
    field (some (string s)) = tt
    field (some (array items)) = tt
    field (some (object m)) = tt
