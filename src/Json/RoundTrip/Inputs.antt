-- ===== src/Json/RoundTrip/Inputs.antt =====
-- What an export wrote, the import reads back: the inputs and the digital outputs.
use config_wp.Base.{ℕ, ◌<◌, ◌≡◌, refl, true, Option, arith}
use config_wp.Types.{
  DiConfig, DoConfig, TcConfig, AiConfig, tc_unit_kelvin, fault_state_count, di_polarity_count,
  do_polarity_count, tc_type_count, ai_input_mode_count,
}
use config_wp.Types.Wire.{IsWireDi, IsWireDo, IsWireTc, IsWireAi}
use config_wp.Config.Validate.{validate_di, validate_do, validate_tc, validate_ai}
use config_wp.Json.{Json}
use config_wp.Json.Enums.{ok}
use config_wp.Json.Patch.{patch_string, patch_uint, patch_int, patch_bool, patch_enum}
use config_wp.Json.Patch.Records.{
  patch_di_record, patch_do_record, patch_tc_record, patch_ai_record,
}
use config_wp.Json.Build.{di_members, do_members, tc_members, ai_members}
use config_wp.Json.RoundTrip.{IsTidy, step, word_mod, string_back, uint_back, int_back}
use config_wp.Json.RoundTrip.Names.{
  fault_state-IsNamed, di_polarity-IsNamed, do_polarity-IsNamed, tc_type-IsNamed, tc_unit-IsNamed,
  ai_input_mode-IsNamed,
}

di_polarity : (r : DiConfig) → validate_di r ≡ true → r.polarity < di_polarity_count
unfolding validate_di
di_polarity r h = ground arith

di_fault_state : (r : DiConfig) → validate_di r ≡ true → r.fault_state < fault_state_count
unfolding validate_di
di_fault_state r h = ground arith

pub patch_di-build_di :
    (on_null : Option Json) (channel : ℕ) (r old : DiConfig)
    → IsWireDi r
    → IsTidy r.name
    → validate_di r ≡ true
    → patch_di_record (di_members on_null channel r) old ≡ ok r
unfolding patch_di_record di_members patch_bool patch_enum patch_string patch_uint
patch_di-build_di on_null channel r old w tidy valid =
    let (polarity, polarity_is, polarity_back) =
      di_polarity-IsNamed r.polarity (di_polarity r valid) in
    let (fault_state, fault_state_is, fault_state_back) =
      fault_state-IsNamed r.fault_state (di_fault_state r valid) in
    rw (polarity_is, fault_state_is)
      (step _ (string_back r.name old.name tidy) (
        step _ (uint_back r.id old.id 65535 (omega (arith, w.id))) (
          step _ (uint_back r.debounce_ms old.debounce_ms 65535 (omega (arith, w.debounce_ms))) (
            step _ polarity_back (
              step _ fault_state_back
                (rw (word_mod r.id w.id, word_mod r.debounce_ms w.debounce_ms) refl))))))

do_polarity : (r : DoConfig) → validate_do r ≡ true → r.polarity < do_polarity_count
unfolding validate_do
do_polarity r h = ground arith

do_fault_state : (r : DoConfig) → validate_do r ≡ true → r.fault_state < fault_state_count
unfolding validate_do
do_fault_state r h = ground arith

pub patch_do-build_do :
    (on_null : Option Json) (channel : ℕ) (r old : DoConfig)
    → IsWireDo r
    → IsTidy r.name
    → validate_do r ≡ true
    → patch_do_record (do_members on_null channel r) old ≡ ok r
unfolding patch_do_record do_members patch_enum patch_string patch_uint
patch_do-build_do on_null channel r old w tidy valid =
    let (polarity, polarity_is, polarity_back) =
      do_polarity-IsNamed r.polarity (do_polarity r valid) in
    let (fault_state, fault_state_is, fault_state_back) =
      fault_state-IsNamed r.fault_state (do_fault_state r valid) in
    rw (polarity_is, fault_state_is)
      (step _ (string_back r.name old.name tidy) (
        step _ (uint_back r.id old.id 65535 (omega (arith, w.id)))
          (step _ polarity_back (step _ fault_state_back (rw (word_mod r.id w.id) refl)))))

pub tc_tc_type : (r : TcConfig) → validate_tc r ≡ true → r.tc_type < tc_type_count
unfolding validate_tc
tc_tc_type r h = ground arith

pub tc_fault_state : (r : TcConfig) → validate_tc r ≡ true → r.fault_state < fault_state_count
unfolding validate_tc
tc_fault_state r h = ground arith

pub patch_tc-build_tc :
    (on_null : Option Json) (channel : ℕ) (r old : TcConfig)
    → IsWireTc r
    → IsTidy r.name
    → validate_tc r ≡ true
    → r.unit < tc_unit_kelvin
    → patch_tc_record (tc_members on_null channel r) old ≡ ok r
unfolding patch_tc_record tc_members patch_bool patch_enum patch_int patch_string patch_uint
patch_tc-build_tc on_null channel r old w tidy valid celsius =
    let (tc_type, tc_type_is, tc_type_back) = tc_type-IsNamed r.tc_type (tc_tc_type r valid) in
    let (unit, unit_is, unit_back) = tc_unit-IsNamed r.unit celsius in
    let (fault_state, fault_state_is, fault_state_back) =
      fault_state-IsNamed r.fault_state (tc_fault_state r valid) in
    rw (tc_type_is, unit_is, fault_state_is)
      (step _ (string_back r.name old.name tidy) (
        step _ (uint_back r.id old.id 65535 (omega (arith, w.id))) (
          step _ tc_type_back (
            step _ unit_back (
              step _ (uint_back r.filter_ms old.filter_ms 65535 (omega (arith, w.filter_ms))) (
                step _ fault_state_back (
                  step _ (int_back r.fault_value_c10 old.fault_value_c10 32767 w.fault_value_c10)
                    (rw (word_mod r.id w.id, word_mod r.filter_ms w.filter_ms) refl))))))))

ai_input_mode : (r : AiConfig) → validate_ai r ≡ true → r.input_mode < ai_input_mode_count
unfolding validate_ai
ai_input_mode r h = ground arith

ai_fault_state : (r : AiConfig) → validate_ai r ≡ true → r.fault_state < fault_state_count
unfolding validate_ai
ai_fault_state r h = ground arith

pub patch_ai-build_ai :
    (on_null : Option Json) (channel : ℕ) (r old : AiConfig)
    → IsWireAi r
    → IsTidy r.name
    → validate_ai r ≡ true
    → patch_ai_record (ai_members on_null channel r) old ≡ ok r
unfolding patch_ai_record ai_members patch_enum patch_int patch_string patch_uint
patch_ai-build_ai on_null channel r old w tidy valid =
    let (input_mode, input_mode_is, input_mode_back) =
      ai_input_mode-IsNamed r.input_mode (ai_input_mode r valid) in
    let (fault_state, fault_state_is, fault_state_back) =
      fault_state-IsNamed r.fault_state (ai_fault_state r valid) in
    rw (input_mode_is, fault_state_is)
      (step _ (string_back r.name old.name tidy) (
        step _ (uint_back r.id old.id 65535 (omega (arith, w.id))) (
          step _ input_mode_back (
            step _ (uint_back r.filter_ms old.filter_ms 65535 (omega (arith, w.filter_ms))) (
              step _ (int_back r.scale_num old.scale_num 2147483647 w.scale_num) (
                step _ (int_back r.scale_den old.scale_den 2147483647 w.scale_den) (
                  step _ (int_back r.offset old.offset 2147483647 w.offset) (
                    step _ fault_state_back (
                      step _ (int_back r.fault_value old.fault_value 2147483647 w.fault_value)
                        (rw (word_mod r.id w.id, word_mod r.filter_ms w.filter_ms) refl))))))))))
