-- ===== src/Json/RoundTrip/Outputs.antt =====
-- What an export wrote, the import reads back: the analogue outputs, counters, pulses and system.
use config_wp.Base.{ℕ, ◌<◌, ◌≡◌, refl, true, Option, arith}
use config_wp.Types.{
  AoConfig, PcntConfig, PwmConfig, SystemConfig, fault_state_count, ao_output_mode_count,
  pcnt_mode_count, pcnt_edge_count, can_bitrate_count, nmt_startup_count,
}
use config_wp.Types.Wire.{IsWireAo, IsWirePcnt, IsWirePwm, IsWireSystem}
use config_wp.Config.Validate.{validate_ao, validate_pcnt, validate_pwm, validate_system}
use config_wp.Json.{Json}
use config_wp.Json.Enums.{ok}
use config_wp.Json.Patch.{patch_string, patch_uint, patch_int, patch_bool, patch_enum}
use config_wp.Json.Patch.Records.{
  patch_ao_record, patch_pcnt_record, patch_pwm_record, patch_system_record,
}
use config_wp.Json.Build.{ao_members, pcnt_members, pwm_members, system_members}
use config_wp.Json.RoundTrip.{IsTidy, step, byte_mod, word_mod, string_back, uint_back, int_back}
use config_wp.Json.RoundTrip.Names.{
  fault_state-IsNamed, ao_output_mode-IsNamed, pcnt_mode-IsNamed, pcnt_edge-IsNamed,
  can_bitrate-IsNamed, nmt_startup-IsNamed,
}

ao_output_mode : (r : AoConfig) → validate_ao r ≡ true → r.output_mode < ao_output_mode_count
unfolding validate_ao
ao_output_mode r h = ground arith

ao_fault_state : (r : AoConfig) → validate_ao r ≡ true → r.fault_state < fault_state_count
unfolding validate_ao
ao_fault_state r h = ground arith

pub patch_ao-build_ao :
    (on_null : Option Json) (channel : ℕ) (r old : AoConfig)
    → IsWireAo r
    → IsTidy r.name
    → validate_ao r ≡ true
    → patch_ao_record (ao_members on_null channel r) old ≡ ok r
unfolding patch_ao_record ao_members patch_enum patch_int patch_string patch_uint
patch_ao-build_ao on_null channel r old w tidy valid =
    let (output_mode, output_mode_is, output_mode_back) =
      ao_output_mode-IsNamed r.output_mode (ao_output_mode r valid) in
    let (fault_state, fault_state_is, fault_state_back) =
      fault_state-IsNamed r.fault_state (ao_fault_state r valid) in
    rw (output_mode_is, fault_state_is)
      (step _ (string_back r.name old.name tidy) (
        step _ (uint_back r.id old.id 65535 (omega (arith, w.id))) (
          step _ output_mode_back (
            step _ (uint_back r.slew_per_s old.slew_per_s 65535 (omega (arith, w.slew_per_s))) (
              step _ (int_back r.scale_num old.scale_num 2147483647 w.scale_num) (
                step _ (int_back r.scale_den old.scale_den 2147483647 w.scale_den) (
                  step _ (int_back r.offset old.offset 2147483647 w.offset) (
                    step _ fault_state_back (
                      step _ (int_back r.fault_value old.fault_value 2147483647 w.fault_value)
                        (rw (word_mod r.id w.id, word_mod r.slew_per_s w.slew_per_s) refl))))))))))

pcnt_mode : (r : PcntConfig) → validate_pcnt r ≡ true → r.mode < pcnt_mode_count
unfolding validate_pcnt
pcnt_mode r h = ground arith

pcnt_edge : (r : PcntConfig) → validate_pcnt r ≡ true → r.edge < pcnt_edge_count
unfolding validate_pcnt
pcnt_edge r h = ground arith

pub patch_pcnt-build_pcnt :
    (on_null : Option Json) (channel : ℕ) (r old : PcntConfig)
    → IsWirePcnt r
    → IsTidy r.name
    → validate_pcnt r ≡ true
    → patch_pcnt_record (pcnt_members on_null channel r) old ≡ ok r
unfolding patch_pcnt_record pcnt_members patch_bool patch_enum patch_string patch_uint
patch_pcnt-build_pcnt on_null channel r old w tidy valid =
    let (mode, mode_is, mode_back) = pcnt_mode-IsNamed r.mode (pcnt_mode r valid) in
    let (edge, edge_is, edge_back) = pcnt_edge-IsNamed r.edge (pcnt_edge r valid) in
    rw (mode_is, edge_is)
      (step _ (string_back r.name old.name tidy) (
        step _ (uint_back r.id old.id 65535 (omega (arith, w.id))) (
          step _ mode_back (
            step _ edge_back (
              step _ (uint_back r.limit old.limit 4294967295 (omega (arith, w.limit)))
                (rw (word_mod r.id w.id) refl))))))

pwm_fault_state : (r : PwmConfig) → validate_pwm r ≡ true → r.fault_state < fault_state_count
unfolding validate_pwm
pwm_fault_state r h = ground arith

pub patch_pwm-build_pwm :
    (on_null : Option Json) (channel : ℕ) (r old : PwmConfig)
    → IsWirePwm r
    → IsTidy r.name
    → validate_pwm r ≡ true
    → patch_pwm_record (pwm_members on_null channel r) old ≡ ok r
unfolding patch_pwm_record pwm_members patch_enum patch_string patch_uint
patch_pwm-build_pwm on_null channel r old w tidy valid =
    let (fault_state, fault_state_is, fault_state_back) =
      fault_state-IsNamed r.fault_state (pwm_fault_state r valid) in
    rw fault_state_is (
      step _ (string_back r.name old.name tidy) (
        step _ (uint_back r.id old.id 65535 (omega (arith, w.id))) (
          step _ (uint_back r.period_us old.period_us 4294967295 (omega (arith, w.period_us))) (
            step _
              (uint_back r.duty_permille old.duty_permille 65535 (omega (arith, w.duty_permille)))
              (step _ fault_state_back (
                step _
                  (uint_back r.fault_duty_permille old.fault_duty_permille 65535
                    (omega (arith, w.fault_duty_permille)))
                  (rw
                    (
                      word_mod r.id w.id,
                      word_mod r.duty_permille w.duty_permille,
                      word_mod r.fault_duty_permille w.fault_duty_permille,
                    )
                    refl)))))))

system_can_bitrate :
    (r : SystemConfig) → validate_system r ≡ true → r.can_bitrate < can_bitrate_count
unfolding validate_system
system_can_bitrate r h = ground arith

system_nmt_startup :
    (r : SystemConfig) → validate_system r ≡ true → r.nmt_startup < nmt_startup_count
unfolding validate_system
system_nmt_startup r h = ground arith

pub patch_system-build_system :
    (on_null : Option Json) (r old : SystemConfig)
    → IsWireSystem r
    → validate_system r ≡ true
    → patch_system_record (system_members on_null r) old ≡ ok r
unfolding patch_system_record system_members patch_enum patch_uint
patch_system-build_system on_null r old w valid =
    let (can_bitrate, can_bitrate_is, can_bitrate_back) =
      can_bitrate-IsNamed r.can_bitrate (system_can_bitrate r valid) in
    let (nmt_startup, nmt_startup_is, nmt_startup_back) =
      nmt_startup-IsNamed r.nmt_startup (system_nmt_startup r valid) in
    rw (can_bitrate_is, nmt_startup_is)
      (step _
        (uint_back r.canopen_node_id old.canopen_node_id 255 (omega (arith, w.canopen_node_id)))
        (step _ can_bitrate_back (
          step _ (uint_back r.heartbeat_ms old.heartbeat_ms 65535 (omega (arith, w.heartbeat_ms))) (
            step _
              (uint_back r.sync_window_us old.sync_window_us 4294967295
                (omega (arith, w.sync_window_us)))
              (step _ nmt_startup_back (
                step _
                  (uint_back r.producer_emcy_cob_id old.producer_emcy_cob_id 4294967295
                    (omega (arith, w.producer_emcy_cob_id)))
                  (rw
                    (
                      byte_mod r.canopen_node_id w.canopen_node_id,
                      word_mod r.heartbeat_ms w.heartbeat_ms,
                    )
                    refl)))))))
