-- ===== src/Json/Wire/Inputs.antt =====
-- A patched record of an input is in the ranges of its C types, if the one it was patched over was.
use config_wp.Base.{◌≤◌, ◌<◌, ◌^◌, refl, arith}
use config_wp.Base.Int.{InSigned}
use config_wp.Types.{
  DiConfig, DoConfig, TcConfig, AiConfig, config_name_len, fault_state_count, di_polarity_count,
  do_polarity_count, tc_type_count, tc_unit_count, ai_input_mode_count,
}
use config_wp.Types.Wire.{IsName, IsWireDi, IsWireDo, IsWireTc, IsWireAi}
use config_wp.Json.{Members}
use config_wp.Json.Enums.{
  fault_state_from_json, di_polarity_from_json, do_polarity_from_json, tc_type_from_json,
  tc_unit_from_json, ai_input_mode_from_json,
}
use config_wp.Json.Patch.{patch_string, patch_uint, patch_int, patch_bool, patch_enum}
use config_wp.Json.Patch.Records.{
  uint16_max, int16_min, int16_max, int32_min, int32_max, patch_di_record, patch_do_record,
  patch_tc_record, patch_ai_record,
}
use config_wp.Json.Sized.{HasSized, Holds, holds_bind, is_wide}
use config_wp.Json.Wire.{string_IsName, uint_IsWord, int_InSigned, bool_holds}
use config_wp.Json.Wire.Enums.{enum_IsByte}
use config_wp.Json.Wire.Ranges.{
  fault_state_range, di_polarity_range, do_polarity_range, tc_type_range, tc_unit_range,
  ai_input_mode_range,
}

pub patch_di-IsWireDi :
    (obj : Members) (r : DiConfig)
    → HasSized obj
    → IsWireDi r
    → Holds IsWireDi (patch_di_record obj r)
unfolding patch_di_record is_wide
patch_di-IsWireDi obj r sized w =
    holds_bind IsName IsWireDi (patch_string obj "name" r.name config_name_len) _
      (string_IsName obj "name" r.name w.name)
      λ name name_is.
        holds_bind (λ n. n ≤ uint16_max) IsWireDi (patch_uint obj "id" r.id uint16_max) _
          (uint_IsWord obj "id" r.id uint16_max (omega (arith, w.id)))
          λ id id_is.
            holds_bind (λ n. n ≤ uint16_max) IsWireDi
              (patch_uint obj "debounce_ms" r.debounce_ms uint16_max) _
              (uint_IsWord obj "debounce_ms" r.debounce_ms uint16_max
                (omega (arith, w.debounce_ms)))
              λ debounce_ms debounce_ms_is.
                holds_bind (λ n. n < 2 ^ 8) IsWireDi
                  (patch_enum obj "polarity" r.polarity di_polarity_from_json) _
                  (enum_IsByte obj "polarity" r.polarity di_polarity_count di_polarity_from_json
                    sized refl di_polarity_range (omega arith) w.polarity)
                  λ polarity polarity_is.
                    holds_bind (λ n. n < 2 ^ 8) IsWireDi
                      (patch_enum obj "fault_state" r.fault_state fault_state_from_json) _
                      (enum_IsByte obj "fault_state" r.fault_state fault_state_count
                        fault_state_from_json sized refl fault_state_range (omega arith)
                        w.fault_state)
                      λ fault_state fault_state_is.
                        holds_bind (λ b. Unit) IsWireDi
                          (patch_bool obj "interrupt_enabled" r.interrupt_enabled) _
                          (bool_holds obj "interrupt_enabled" r.interrupt_enabled)
                          λ interrupt_enabled interrupt_enabled_is. record {
                            name = name_is;
                            id = omega arith;
                            debounce_ms = omega arith;
                            polarity = polarity_is;
                            fault_state = fault_state_is;
                          }

pub patch_do-IsWireDo :
    (obj : Members) (r : DoConfig)
    → HasSized obj
    → IsWireDo r
    → Holds IsWireDo (patch_do_record obj r)
unfolding patch_do_record is_wide
patch_do-IsWireDo obj r sized w =
    holds_bind IsName IsWireDo (patch_string obj "name" r.name config_name_len) _
      (string_IsName obj "name" r.name w.name)
      λ name name_is.
        holds_bind (λ n. n ≤ uint16_max) IsWireDo (patch_uint obj "id" r.id uint16_max) _
          (uint_IsWord obj "id" r.id uint16_max (omega (arith, w.id)))
          λ id id_is.
            holds_bind (λ n. n < 2 ^ 8) IsWireDo
              (patch_enum obj "polarity" r.polarity do_polarity_from_json) _
              (enum_IsByte obj "polarity" r.polarity do_polarity_count do_polarity_from_json sized
                refl do_polarity_range (omega arith) w.polarity)
              λ polarity polarity_is.
                holds_bind (λ n. n < 2 ^ 8) IsWireDo
                  (patch_enum obj "fault_state" r.fault_state fault_state_from_json) _
                  (enum_IsByte obj "fault_state" r.fault_state fault_state_count
                    fault_state_from_json sized refl fault_state_range (omega arith) w.fault_state)
                  λ fault_state fault_state_is. record {
                    name = name_is;
                    id = omega arith;
                    polarity = polarity_is;
                    fault_state = fault_state_is;
                  }

pub patch_tc-IsWireTc :
    (obj : Members) (r : TcConfig)
    → HasSized obj
    → IsWireTc r
    → Holds IsWireTc (patch_tc_record obj r)
unfolding patch_tc_record is_wide
patch_tc-IsWireTc obj r sized w =
    holds_bind IsName IsWireTc (patch_string obj "name" r.name config_name_len) _
      (string_IsName obj "name" r.name w.name)
      λ name name_is.
        holds_bind (λ n. n ≤ uint16_max) IsWireTc (patch_uint obj "id" r.id uint16_max) _
          (uint_IsWord obj "id" r.id uint16_max (omega (arith, w.id)))
          λ id id_is.
            holds_bind (λ n. n < 2 ^ 8) IsWireTc
              (patch_enum obj "tc_type" r.tc_type tc_type_from_json) _
              (enum_IsByte obj "tc_type" r.tc_type tc_type_count tc_type_from_json sized refl
                tc_type_range (omega arith) w.tc_type)
              λ tc_type tc_type_is.
                holds_bind (λ n. n < 2 ^ 8) IsWireTc
                  (patch_enum obj "unit" r.unit tc_unit_from_json) _
                  (enum_IsByte obj "unit" r.unit tc_unit_count tc_unit_from_json sized refl
                    tc_unit_range (omega arith) w.unit)
                  λ unit unit_is.
                    holds_bind (λ b. Unit) IsWireTc (patch_bool obj "cjc_enabled" r.cjc_enabled) _
                      (bool_holds obj "cjc_enabled" r.cjc_enabled)
                      λ cjc_enabled cjc_enabled_is.
                        holds_bind (λ n. n ≤ uint16_max) IsWireTc
                          (patch_uint obj "filter_ms" r.filter_ms uint16_max) _
                          (uint_IsWord obj "filter_ms" r.filter_ms uint16_max
                            (omega (arith, w.filter_ms)))
                          λ filter_ms filter_ms_is.
                            holds_bind (λ n. n < 2 ^ 8) IsWireTc
                              (patch_enum obj "fault_state" r.fault_state fault_state_from_json) _
                              (enum_IsByte obj "fault_state" r.fault_state fault_state_count
                                fault_state_from_json sized refl fault_state_range (omega arith)
                                w.fault_state)
                              λ fault_state fault_state_is.
                                holds_bind (InSigned (2 ^ 15)) IsWireTc
                                  (patch_int obj "fault_value_c10" r.fault_value_c10 int16_min
                                    int16_max)
                                  _
                                  (int_InSigned obj "fault_value_c10" r.fault_value_c10 32767
                                    w.fault_value_c10)
                                  λ fault_value_c10 fault_value_c10_is. record {
                                    name = name_is;
                                    id = omega arith;
                                    tc_type = tc_type_is;
                                    unit = unit_is;
                                    filter_ms = omega arith;
                                    fault_state = fault_state_is;
                                    fault_value_c10 = fault_value_c10_is;
                                  }

pub patch_ai-IsWireAi :
    (obj : Members) (r : AiConfig)
    → HasSized obj
    → IsWireAi r
    → Holds IsWireAi (patch_ai_record obj r)
unfolding patch_ai_record is_wide
patch_ai-IsWireAi obj r sized w =
    holds_bind IsName IsWireAi (patch_string obj "name" r.name config_name_len) _
      (string_IsName obj "name" r.name w.name)
      λ name name_is.
        holds_bind (λ n. n ≤ uint16_max) IsWireAi (patch_uint obj "id" r.id uint16_max) _
          (uint_IsWord obj "id" r.id uint16_max (omega (arith, w.id)))
          λ id id_is.
            holds_bind (λ n. n < 2 ^ 8) IsWireAi
              (patch_enum obj "input_mode" r.input_mode ai_input_mode_from_json) _
              (enum_IsByte obj "input_mode" r.input_mode ai_input_mode_count ai_input_mode_from_json
                sized refl ai_input_mode_range (omega arith) w.input_mode)
              λ input_mode input_mode_is.
                holds_bind (λ n. n ≤ uint16_max) IsWireAi
                  (patch_uint obj "filter_ms" r.filter_ms uint16_max) _
                  (uint_IsWord obj "filter_ms" r.filter_ms uint16_max (omega (arith, w.filter_ms)))
                  λ filter_ms filter_ms_is.
                    holds_bind (InSigned (2 ^ 31)) IsWireAi
                      (patch_int obj "scale_num" r.scale_num int32_min int32_max) _
                      (int_InSigned obj "scale_num" r.scale_num 2147483647 w.scale_num)
                      λ scale_num scale_num_is.
                        holds_bind (InSigned (2 ^ 31)) IsWireAi
                          (patch_int obj "scale_den" r.scale_den int32_min int32_max) _
                          (int_InSigned obj "scale_den" r.scale_den 2147483647 w.scale_den)
                          λ scale_den scale_den_is.
                            holds_bind (InSigned (2 ^ 31)) IsWireAi
                              (patch_int obj "offset" r.offset int32_min int32_max) _
                              (int_InSigned obj "offset" r.offset 2147483647 w.offset)
                              λ offset offset_is.
                                holds_bind (λ n. n < 2 ^ 8) IsWireAi
                                  (patch_enum obj "fault_state" r.fault_state fault_state_from_json)
                                  _
                                  (enum_IsByte obj "fault_state" r.fault_state fault_state_count
                                    fault_state_from_json sized refl fault_state_range (omega arith)
                                    w.fault_state)
                                  λ fault_state fault_state_is.
                                    holds_bind (InSigned (2 ^ 31)) IsWireAi
                                      (patch_int obj "fault_value" r.fault_value int32_min
                                        int32_max)
                                      _
                                      (int_InSigned obj "fault_value" r.fault_value 2147483647
                                        w.fault_value)
                                      λ fault_value fault_value_is. record {
                                        name = name_is;
                                        id = omega arith;
                                        input_mode = input_mode_is;
                                        filter_ms = omega arith;
                                        scale_num = scale_num_is;
                                        scale_den = scale_den_is;
                                        offset = offset_is;
                                        fault_state = fault_state_is;
                                        fault_value = fault_value_is;
                                      }
