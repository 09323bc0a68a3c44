-- ===== src/Json/Enums.antt =====
-- The string tables of the enums, and the reading of an enum from JSON.
-- A table has the strings of the values from 0 on; past its end is the `default:` of the switch.
use config_wp.Base.{
  ℕ, suc, zero, ◌&&◌, Bool, true, false, Option, none, some, List, [], ◌∷◌, ◌==◌, leb, not, ◌||◌,
  get_elem?, if◌then◌else◌,
}
use config_wp.Base.Int.{pos, ℤ, negsuc}
use config_wp.Types.{
  fault_state_count, di_polarity_count, do_polarity_count, tc_type_count, tc_unit_count,
  ai_input_mode_count, ao_output_mode_count, pcnt_mode_count, pcnt_edge_count, can_bitrate_count,
  nmt_startup_count,
}
use config_wp.Json.{Json, number, string, codes, below, truncate, fits_int}

-- What a reader of a field does: it gives a value, it finds the JSON malformed, or it casts a double
-- to an integer type that cannot hold it, which C leaves undefined.
pub data Patched (A : Type 0) : Type 0 where
  ok : A → Patched A
  malformed undefined : Patched A

infixl 5 ◌>>=◌
abbrev pub ◌>>=◌ : {A B : Type 0} → Patched A → (A → Patched B) → Patched B
ok a >>= f = f a
malformed >>= f = malformed
undefined >>= f = undefined

unfoldable pub fault_state_to_str : ℕ → Option (List ℕ)
fault_state_to_str v = get_elem? (codes "HOLD" ∷ codes "LOW" ∷ codes "HIGH" ∷ []) v

unfoldable pub di_polarity_to_str : ℕ → Option (List ℕ)
di_polarity_to_str v = get_elem? (codes "ACTIVE_HIGH" ∷ codes "ACTIVE_LOW" ∷ []) v

unfoldable pub do_polarity_to_str : ℕ → Option (List ℕ)
do_polarity_to_str v = get_elem? (codes "ACTIVE_HIGH" ∷ codes "ACTIVE_LOW" ∷ []) v

unfoldable pub tc_type_to_str : ℕ → Option (List ℕ)
tc_type_to_str v =
    get_elem?
      (codes "K"
        ∷ codes "J"
        ∷ codes "T"
        ∷ codes "N"
        ∷ codes "S"
        ∷ codes "R"
        ∷ codes "B"
        ∷ codes "E"
        ∷ [])
      v

unfoldable pub tc_unit_to_str : ℕ → Option (List ℕ)
tc_unit_to_str v = get_elem? (codes "CELSIUS" ∷ codes "FAHRENHEIT" ∷ []) v

unfoldable pub ai_input_mode_to_str : ℕ → Option (List ℕ)
ai_input_mode_to_str v =
    get_elem? (codes "VOLTAGE_0_10V" ∷ codes "CURRENT_4_20MA_2W" ∷ codes "CURRENT_4_20MA_3W" ∷ []) v

unfoldable pub ao_output_mode_to_str : ℕ → Option (List ℕ)
ao_output_mode_to_str v = get_elem? (codes "VOLTAGE_0_10V" ∷ codes "CURRENT_4_20MA" ∷ []) v

unfoldable pub pcnt_mode_to_str : ℕ → Option (List ℕ)
pcnt_mode_to_str v = get_elem? (codes "COUNTER" ∷ codes "FREQUENCY" ∷ []) v

unfoldable pub pcnt_edge_to_str : ℕ → Option (List ℕ)
pcnt_edge_to_str v = get_elem? (codes "RISING" ∷ codes "FALLING" ∷ codes "BOTH" ∷ []) v

unfoldable pub can_bitrate_to_str : ℕ → Option (List ℕ)
can_bitrate_to_str v = get_elem? (codes "125K" ∷ codes "250K" ∷ codes "500K" ∷ codes "1M" ∷ []) v

unfoldable pub nmt_startup_to_str : ℕ → Option (List ℕ)
nmt_startup_to_str v = get_elem? (codes "WAIT" ∷ codes "AUTOSTART" ∷ []) v

-- strcmp(s, t) == 0
abbrev pub equal : List ℕ → List ℕ → Bool
equal [] [] = true
equal [] (b ∷ t) = false
equal (a ∷ s) [] = false
equal (a ∷ s) (b ∷ t) = a == b && equal s t

-- t != NULL && strcmp(s, t) == 0
abbrev pub is_named : Option (List ℕ) → List ℕ → Bool
is_named none s = false
is_named (some t) s = equal s t

-- The loop over the values from `v`, `n` of which are left.
unfoldable pub find_name : ℕ → ℕ → (ℕ → Option (List ℕ)) → List ℕ → Patched ℕ
find_name zero v to_str s = malformed
find_name (suc n) v to_str s =
    let rest = find_name n (suc v) to_str s in if is_named (to_str v) s then ok v else rest

abbrev pub is_negative : ℤ → Bool
is_negative (pos n) = false
is_negative (negsuc n) = true

-- The value of an int that is not negative.
abbrev pub magnitude : ℤ → ℕ
magnitude (pos n) = n
magnitude (negsuc n) = 0

unfoldable pub enum_from_json : Json → ℕ → (ℕ → Option (List ℕ)) → Patched ℕ
unfolding below truncate fits_int find_name
enum_from_json (number v) count to_str =
    if not (fits_int v)
    then undefined
    else if is_negative (truncate v) || leb count (magnitude (truncate v))
    then malformed
    else ok (magnitude (truncate v))
enum_from_json (string s) count to_str = find_name count 0 to_str s
enum_from_json _ count to_str = malformed

unfoldable pub fault_state_from_json : Json → Patched ℕ
unfolding enum_from_json fault_state_to_str
fault_state_from_json j = enum_from_json j fault_state_count fault_state_to_str

unfoldable pub di_polarity_from_json : Json → Patched ℕ
unfolding enum_from_json di_polarity_to_str
di_polarity_from_json j = enum_from_json j di_polarity_count di_polarity_to_str

unfoldable pub do_polarity_from_json : Json → Patched ℕ
unfolding enum_from_json do_polarity_to_str
do_polarity_from_json j = enum_from_json j do_polarity_count do_polarity_to_str

unfoldable pub tc_type_from_json : Json → Patched ℕ
unfolding enum_from_json tc_type_to_str
tc_type_from_json j = enum_from_json j tc_type_count tc_type_to_str

unfoldable pub tc_unit_from_json : Json → Patched ℕ
unfolding enum_from_json tc_unit_to_str
tc_unit_from_json j = enum_from_json j tc_unit_count tc_unit_to_str

unfoldable pub ai_input_mode_from_json : Json → Patched ℕ
unfolding enum_from_json ai_input_mode_to_str
ai_input_mode_from_json j = enum_from_json j ai_input_mode_count ai_input_mode_to_str

unfoldable pub ao_output_mode_from_json : Json → Patched ℕ
unfolding enum_from_json ao_output_mode_to_str
ao_output_mode_from_json j = enum_from_json j ao_output_mode_count ao_output_mode_to_str

unfoldable pub pcnt_mode_from_json : Json → Patched ℕ
unfolding enum_from_json pcnt_mode_to_str
pcnt_mode_from_json j = enum_from_json j pcnt_mode_count pcnt_mode_to_str

unfoldable pub pcnt_edge_from_json : Json → Patched ℕ
unfolding enum_from_json pcnt_edge_to_str
pcnt_edge_from_json j = enum_from_json j pcnt_edge_count pcnt_edge_to_str

unfoldable pub can_bitrate_from_json : Json → Patched ℕ
unfolding enum_from_json can_bitrate_to_str
can_bitrate_from_json j = enum_from_json j can_bitrate_count can_bitrate_to_str

unfoldable pub nmt_startup_from_json : Json → Patched ℕ
unfolding enum_from_json nmt_startup_to_str
nmt_startup_from_json j = enum_from_json j nmt_startup_count nmt_startup_to_str
