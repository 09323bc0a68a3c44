-- ===== src/Json/RoundTrip/Kelvin.antt =====
-- What an export loses: the unit of a thermocouple in kelvin.
use config_wp.Base.{ℕ, ◌≡◌, refl, ap, ◌∙◌, true, none, arith}
use config_wp.Types.{TcConfig, tc_unit_kelvin}
use config_wp.Types.Wire.{IsWireTc}
use config_wp.Config.Validate.{validate_tc}
use config_wp.Json.Enums.{ok, tc_unit_to_str}
use config_wp.Json.Patch.{patch_string, patch_uint, patch_int, patch_bool, patch_enum}
use config_wp.Json.Patch.Records.{patch_tc_record}
use config_wp.Json.Build.{tc_members}
use config_wp.Json.RoundTrip.{IsTidy, step, word_mod, string_back, uint_back, int_back}
use config_wp.Json.RoundTrip.Names.{tc_type-IsNamed, fault_state-IsNamed}
use config_wp.Json.RoundTrip.Inputs.{tc_tc_type, tc_fault_state}

no_kelvin : tc_unit_to_str tc_unit_kelvin ≡ none
unfolding tc_unit_to_str
no_kelvin = refl

-- A valid thermocouple record in kelvin, in the ranges of its C types and with a tidy name, is
-- exported without its unit, where cJSON adds no member for a null string: patch_tc_record over
-- any record then gives the exported one with the unit of the record that it was patched over.
pub tc_kelvin_lost :
    (channel : ℕ) (r old : TcConfig)
    → IsWireTc r
    → IsTidy r.name
    → validate_tc r ≡ true
    → r.unit ≡ tc_unit_kelvin
    → patch_tc_record (tc_members none channel r) old ≡ ok (record r { unit = old.unit })
unfolding patch_tc_record tc_members patch_bool patch_enum patch_int patch_string patch_uint
tc_kelvin_lost channel r old w tidy valid kelvin =
    let (tc_type, tc_type_is, tc_type_back) = tc_type-IsNamed r.tc_type (tc_tc_type r valid) in
    let unit_is = ap tc_unit_to_str kelvin ∙ no_kelvin in
    let (fault_state, fault_state_is, fault_state_back) =
      fault_state-IsNamed r.fault_state (tc_fault_state r valid) in
    rw (tc_type_is, unit_is, fault_state_is)
      (step _ (string_back r.name old.name tidy) (
        step _ (uint_back r.id old.id 65535 (omega (arith, w.id))) (
          step _ tc_type_back (
            step _ (uint_back r.filter_ms old.filter_ms 65535 (omega (arith, w.filter_ms))) (
              step _ fault_state_back (
                step _ (int_back r.fault_value_c10 old.fault_value_c10 32767 w.fault_value_c10)
                  (rw (word_mod r.id w.id, word_mod r.filter_ms w.filter_ms) refl)))))))
