-- ===== src/Json/Wire/Outputs.antt =====
-- A patched record of an output, a counter or the system is in the ranges of its C types.
use config_wp.Base.{◌≤◌, ◌<◌, ◌^◌, refl, arith}
use config_wp.Base.Int.{InSigned}
use config_wp.Types.{
  AoConfig, PcntConfig, PwmConfig, SystemConfig, config_name_len, fault_state_count,
  ao_output_mode_count, pcnt_mode_count, pcnt_edge_count, can_bitrate_count, nmt_startup_count,
}
use config_wp.Types.Wire.{IsName, IsWireAo, IsWirePcnt, IsWirePwm, IsWireSystem}
use config_wp.Json.{Members}
use config_wp.Json.Enums.{
  fault_state_from_json, ao_output_mode_from_json, pcnt_mode_from_json, pcnt_edge_from_json,
  can_bitrate_from_json, nmt_startup_from_json,
}
use config_wp.Json.Patch.{patch_string, patch_uint, patch_int, patch_bool, patch_enum}
use config_wp.Json.Patch.Records.{
  uint8_max, uint16_max, uint32_max, int32_min, int32_max, patch_ao_record, patch_pcnt_record,
  patch_pwm_record, patch_system_record,
}
use config_wp.Json.Sized.{HasSized, Holds, holds_bind, is_wide}
use config_wp.Json.Wire.{string_IsName, uint_IsWord, int_InSigned, bool_holds}
use config_wp.Json.Wire.Enums.{enum_IsByte}
use config_wp.Json.Wire.Ranges.{
  fault_state_range, ao_output_mode_range, pcnt_mode_range, pcnt_edge_range, can_bitrate_range,
  nmt_startup_range,
}

pub patch_ao-IsWireAo :
    (obj : Members) (r : AoConfig)
    → HasSized obj
    → IsWireAo r
    → Holds IsWireAo (patch_ao_record obj r)
unfolding patch_ao_record is_wide
patch_ao-IsWireAo obj r sized w =
    holds_bind IsName IsWireAo (patch_string obj "name" r.name config_name_len) _
      (string_IsName obj "name" r.name w.name)
      λ name name_is.
        holds_bind (λ n. n ≤ uint16_max) IsWireAo (patch_uint obj "id" r.id uint16_max) _
          (uint_IsWord obj "id" r.id uint16_max (omega (arith, w.id)))
          λ id id_is.
            holds_bind (λ n. n < 2 ^ 8) IsWireAo
              (patch_enum obj "output_mode" r.output_mode ao_output_mode_from_json) _
              (enum_IsByte obj "output_mode" r.output_mode ao_output_mode_count
                ao_output_mode_from_json sized refl ao_output_mode_range (omega arith)
                w.output_mode)
              λ output_mode output_mode_is.
                holds_bind (λ n. n ≤ uint16_max) IsWireAo
                  (patch_uint obj "slew_per_s" r.slew_per_s uint16_max) _
                  (uint_IsWord obj "slew_per_s" r.slew_per_s uint16_max
                    (omega (arith, w.slew_per_s)))
                  λ slew_per_s slew_per_s_is.
                    holds_bind (InSigned (2 ^ 31)) IsWireAo
                      (patch_int obj "scale_num" r.scale_num int32_min int32_max) _
                      (int_InSigned obj "scale_num" r.scale_num 2147483647 w.scale_num)
                      λ scale_num scale_num_is.
                        holds_bind (InSigned (2 ^ 31)) IsWireAo
                          (patch_int obj "scale_den" r.scale_den int32_min int32_max) _
                          (int_InSigned obj "scale_den" r.scale_den 2147483647 w.scale_den)
                          λ scale_den scale_den_is.
                            holds_bind (InSigned (2 ^ 31)) IsWireAo
                              (patch_int obj "offset" r.offset int32_min int32_max) _
                              (int_InSigned obj "offset" r.offset 2147483647 w.offset)
                              λ offset offset_is.
                                holds_bind (λ n. n < 2 ^ 8) IsWireAo
                                  (patch_enum obj "fault_state" r.fault_state fault_state_from_json)
                                  _
                                  (enum_IsByte obj "fault_state" r.fault_state fault_state_count
                                    fault_state_from_json sized refl fault_state_range (omega arith)
                                    w.fault_state)
                                  λ fault_state fault_state_is.
                                    holds_bind (InSigned (2 ^ 31)) IsWireAo
                                      (patch_int obj "fault_value" r.fault_value int32_min
                                        int32_max)
                                      _
                                      (int_InSigned obj "fault_value" r.fault_value 2147483647
                                        w.fault_value)
                                      λ fault_value fault_value_is. record {
                                        name = name_is;
                                        id = omega arith;
                                        output_mode = output_mode_is;
                                        slew_per_s = omega arith;
                                        scale_num = scale_num_is;
                                        scale_den = scale_den_is;
                                        offset = offset_is;
                                        fault_state = fault_state_is;
                                        fault_value = fault_value_is;
                                      }

pub patch_pcnt-IsWirePcnt :
    (obj : Members) (r : PcntConfig)
    → HasSized obj
    → IsWirePcnt r
    → Holds IsWirePcnt (patch_pcnt_record obj r)
unfolding patch_pcnt_record is_wide
patch_pcnt-IsWirePcnt obj r sized w =
    holds_bind IsName IsWirePcnt (patch_string obj "name" r.name config_name_len) _
      (string_IsName obj "name" r.name w.name)
      λ name name_is.
        holds_bind (λ n. n ≤ uint16_max) IsWirePcnt (patch_uint obj "id" r.id uint16_max) _
          (uint_IsWord obj "id" r.id uint16_max (omega (arith, w.id)))
          λ id id_is.
            holds_bind (λ n. n < 2 ^ 8) IsWirePcnt
              (patch_enum obj "mode" r.mode pcnt_mode_from_json) _
              (enum_IsByte obj "mode" r.mode pcnt_mode_count pcnt_mode_from_json sized refl
                pcnt_mode_range (omega arith) w.mode)
              λ mode mode_is.
                holds_bind (λ n. n < 2 ^ 8) IsWirePcnt
                  (patch_enum obj "edge" r.edge pcnt_edge_from_json) _
                  (enum_IsByte obj "edge" r.edge pcnt_edge_count pcnt_edge_from_json sized refl
                    pcnt_edge_range (omega arith) w.edge)
                  λ edge edge_is.
                    holds_bind (λ n. n ≤ uint32_max) IsWirePcnt
                      (patch_uint obj "limit" r.limit uint32_max) _
                      (uint_IsWord obj "limit" r.limit uint32_max (omega (arith, w.limit)))
                      λ limit limit_is.
                        holds_bind (λ b. Unit) IsWirePcnt
                          (patch_bool obj "reset_on_read" r.reset_on_read) _
                          (bool_holds obj "reset_on_read" r.reset_on_read)
                          λ reset_on_read reset_on_read_is. record {
                            name = name_is;
                            id = omega arith;
                            mode = mode_is;
                            edge = edge_is;
                            limit = omega arith;
                          }

pub patch_pwm-IsWirePwm :
    (obj : Members) (r : PwmConfig)
    → HasSized obj
    → IsWirePwm r
    → Holds IsWirePwm (patch_pwm_record obj r)
unfolding patch_pwm_record is_wide
patch_pwm-IsWirePwm obj r sized w =
    holds_bind IsName IsWirePwm (patch_string obj "name" r.name config_name_len) _
      (string_IsName obj "name" r.name w.name)
      λ name name_is.
        holds_bind (λ n. n ≤ uint16_max) IsWirePwm (patch_uint obj "id" r.id uint16_max) _
          (uint_IsWord obj "id" r.id uint16_max (omega (arith, w.id)))
          λ id id_is.
            holds_bind (λ n. n ≤ uint32_max) IsWirePwm
              (patch_uint obj "period_us" r.period_us uint32_max) _
              (uint_IsWord obj "period_us" r.period_us uint32_max (omega (arith, w.period_us)))
              λ period_us period_us_is.
                holds_bind (λ n. n ≤ uint16_max) IsWirePwm
                  (patch_uint obj "duty_permille" r.duty_permille uint16_max) _
                  (uint_IsWord obj "duty_permille" r.duty_permille uint16_max
                    (omega (arith, w.duty_permille)))
                  λ duty_permille duty_permille_is.
                    holds_bind (λ n. n < 2 ^ 8) IsWirePwm
                      (patch_enum obj "fault_state" r.fault_state fault_state_from_json) _
                      (enum_IsByte obj "fault_state" r.fault_state fault_state_count
                        fault_state_from_json sized refl fault_state_range (omega arith)
                        w.fault_state)
                      λ fault_state fault_state_is.
                        holds_bind (λ n. n ≤ uint16_max) IsWirePwm
                          (patch_uint obj "fault_duty_permille" r.fault_duty_permille uint16_max) _
                          (uint_IsWord obj "fault_duty_permille" r.fault_duty_permille uint16_max
                            (omega (arith, w.fault_duty_permille)))
                          λ fault_duty_permille fault_duty_permille_is. record {
                            name = name_is;
                            id = omega arith;
                            period_us = omega arith;
                            duty_permille = omega arith;
                            fault_state = fault_state_is;
                            fault_duty_permille = omega arith;
                          }

pub patch_system-IsWireSystem :
    (obj : Members) (r : SystemConfig)
    → HasSized obj
    → IsWireSystem r
    → Holds IsWireSystem (patch_system_record obj r)
unfolding patch_system_record is_wide
patch_system-IsWireSystem obj r sized w =
    holds_bind (λ n. n ≤ uint8_max) IsWireSystem
      (patch_uint obj "canopen_node_id" r.canopen_node_id uint8_max) _
      (uint_IsWord obj "canopen_node_id" r.canopen_node_id uint8_max
        (omega (arith, w.canopen_node_id)))
      λ canopen_node_id canopen_node_id_is.
        holds_bind (λ n. n < 2 ^ 8) IsWireSystem
          (patch_enum obj "can_bitrate" r.can_bitrate can_bitrate_from_json) _
          (enum_IsByte obj "can_bitrate" r.can_bitrate can_bitrate_count can_bitrate_from_json sized
            refl can_bitrate_range (omega arith) w.can_bitrate)
          λ can_bitrate can_bitrate_is.
            holds_bind (λ n. n ≤ uint16_max) IsWireSystem
              (patch_uint obj "heartbeat_ms" r.heartbeat_ms uint16_max) _
              (uint_IsWord obj "heartbeat_ms" r.heartbeat_ms uint16_max
                (omega (arith, w.heartbeat_ms)))
              λ heartbeat_ms heartbeat_ms_is.
                holds_bind (λ n. n ≤ uint32_max) IsWireSystem
                  (patch_uint obj "sync_window_us" r.sync_window_us uint32_max) _
                  (uint_IsWord obj "sync_window_us" r.sync_window_us uint32_max
                    (omega (arith, w.sync_window_us)))
                  λ sync_window_us sync_window_us_is.
                    holds_bind (λ n. n < 2 ^ 8) IsWireSystem
                      (patch_enum obj "nmt_startup" r.nmt_startup nmt_startup_from_json) _
                      (enum_IsByte obj "nmt_startup" r.nmt_startup nmt_startup_count
                        nmt_startup_from_json sized refl nmt_startup_range (omega arith)
                        w.nmt_startup)
                      λ nmt_startup nmt_startup_is.
                        holds_bind (λ n. n ≤ uint32_max) IsWireSystem
                          (patch_uint obj "producer_emcy_cob_id" r.producer_emcy_cob_id uint32_max)
                          _
                          (uint_IsWord obj "producer_emcy_cob_id" r.producer_emcy_cob_id uint32_max
                            (omega (arith, w.producer_emcy_cob_id)))
                          λ producer_emcy_cob_id producer_emcy_cob_id_is. record {
                            canopen_node_id = omega arith;
                            can_bitrate = can_bitrate_is;
                            heartbeat_ms = omega arith;
                            sync_window_us = omega arith;
                            nmt_startup = nmt_startup_is;
                            producer_emcy_cob_id = omega arith;
                          }
