-- ===== src/Json/Build.antt =====
-- The builders of the export: the object of a record, its members in the code's order. What
-- cJSON_AddStringToObject appends for a null string, the name of a value that has none, is the
-- parameter `on_null`; every other item is taken to be allocated.
use Prim.Native.String.{String}
use config_wp.Base.{ℕ, zero, suc, Bool, Option, none, some, List, [], ◌∷◌}
use config_wp.Base.Int.{ℤ, pos}
use config_wp.Types.{
  DiConfig, DoConfig, TcConfig, AiConfig, AoConfig, PcntConfig, PwmConfig, SystemConfig,
}
use config_wp.Json.{Json, Members, no_members, member, bool, number, string, object, of_int}
use config_wp.Json.Enums.{
  fault_state_to_str, di_polarity_to_str, do_polarity_to_str, tc_type_to_str, tc_unit_to_str,
  ai_input_mode_to_str, ao_output_mode_to_str, pcnt_mode_to_str, pcnt_edge_to_str,
  can_bitrate_to_str, nmt_startup_to_str,
}

-- The bytes before the terminator.
unfoldable pub c_string : List ℕ → List ℕ
c_string [] = []
c_string (zero ∷ s) = []
c_string (suc b ∷ s) = suc b ∷ c_string s

abbrev pub add_int : String → ℤ → Members → Members
add_int key v rest = member key (number (of_int v)) rest

abbrev pub add_uint : String → ℕ → Members → Members
add_uint key v rest = member key (number (of_int (pos v))) rest

abbrev pub add_bool : String → Bool → Members → Members
add_bool key b rest = member key (bool b) rest

-- The member that `on_null` gives, if it gives one.
abbrev pub add_null : Option Json → String → Members → Members
add_null none key rest = rest
add_null (some j) key rest = member key j rest

abbrev pub add_string : Option Json → String → Option (List ℕ) → Members → Members
add_string on_null key (some s) rest = member key (string s) rest
add_string on_null key none rest = add_null on_null key rest

unfoldable pub di_members : Option Json → ℕ → DiConfig → Members
unfolding c_string
di_members on_null channel r = add_uint "channel" channel (
    add_string on_null "name" (some (c_string r.name)) (
      add_uint "id" r.id (
        add_uint "debounce_ms" r.debounce_ms (
          add_string on_null "polarity" (di_polarity_to_str r.polarity) (
            add_string on_null "fault_state" (fault_state_to_str r.fault_state)
              (add_bool "interrupt_enabled" r.interrupt_enabled no_members))))))

unfoldable pub build_di : Option Json → ℕ → DiConfig → Json
unfolding di_members
build_di on_null channel r = object (di_members on_null channel r)

unfoldable pub do_members : Option Json → ℕ → DoConfig → Members
unfolding c_string
do_members on_null channel r = add_uint "channel" channel (
    add_string on_null "name" (some (c_string r.name)) (
      add_uint "id" r.id (
        add_string on_null "polarity" (do_polarity_to_str r.polarity)
          (add_string on_null "fault_state" (fault_state_to_str r.fault_state) no_members))))

unfoldable pub build_do : Option Json → ℕ → DoConfig → Json
unfolding do_members
build_do on_null channel r = object (do_members on_null channel r)

unfoldable pub tc_members : Option Json → ℕ → TcConfig → Members
unfolding c_string
tc_members on_null channel r = add_uint "channel" channel (
    add_string on_null "name" (some (c_string r.name)) (
      add_uint "id" r.id (
        add_string on_null "tc_type" (tc_type_to_str r.tc_type) (
          add_string on_null "unit" (tc_unit_to_str r.unit) (
            add_bool "cjc_enabled" r.cjc_enabled (
              add_uint "filter_ms" r.filter_ms (
                add_string on_null "fault_state" (fault_state_to_str r.fault_state)
                  (add_int "fault_value_c10" r.fault_value_c10 no_members))))))))

unfoldable pub build_tc : Option Json → ℕ → TcConfig → Json
unfolding tc_members
build_tc on_null channel r = object (tc_members on_null channel r)

unfoldable pub ai_members : Option Json → ℕ → AiConfig → Members
unfolding c_string
ai_members on_null channel r = add_uint "channel" channel (
    add_string on_null "name" (some (c_string r.name)) (
      add_uint "id" r.id (
        add_string on_null "input_mode" (ai_input_mode_to_str r.input_mode) (
          add_uint "filter_ms" r.filter_ms (
            add_int "scale_num" r.scale_num (
              add_int "scale_den" r.scale_den (
                add_int "offset" r.offset (
                  add_string on_null "fault_state" (fault_state_to_str r.fault_state)
                    (add_int "fault_value" r.fault_value no_members)))))))))

unfoldable pub build_ai : Option Json → ℕ → AiConfig → Json
unfolding ai_members
build_ai on_null channel r = object (ai_members on_null channel r)

unfoldable pub ao_members : Option Json → ℕ → AoConfig → Members
unfolding c_string
ao_members on_null channel r = add_uint "channel" channel (
    add_string on_null "name" (some (c_string r.name)) (
      add_uint "id" r.id (
        add_string on_null "output_mode" (ao_output_mode_to_str r.output_mode) (
          add_uint "slew_per_s" r.slew_per_s (
            add_int "scale_num" r.scale_num (
              add_int "scale_den" r.scale_den (
                add_int "offset" r.offset (
                  add_string on_null "fault_state" (fault_state_to_str r.fault_state)
                    (add_int "fault_value" r.fault_value no_members)))))))))

unfoldable pub build_ao : Option Json → ℕ → AoConfig → Json
unfolding ao_members
build_ao on_null channel r = object (ao_members on_null channel r)

unfoldable pub pcnt_members : Option Json → ℕ → PcntConfig → Members
unfolding c_string
pcnt_members on_null channel r = add_uint "channel" channel (
    add_string on_null "name" (some (c_string r.name)) (
      add_uint "id" r.id (
        add_string on_null "mode" (pcnt_mode_to_str r.mode) (
          add_string on_null "edge" (pcnt_edge_to_str r.edge)
            (add_uint "limit" r.limit (add_bool "reset_on_read" r.reset_on_read no_members))))))

unfoldable pub build_pcnt : Option Json → ℕ → PcntConfig → Json
unfolding pcnt_members
build_pcnt on_null channel r = object (pcnt_members on_null channel r)

unfoldable pub pwm_members : Option Json → ℕ → PwmConfig → Members
unfolding c_string
pwm_members on_null channel r = add_uint "channel" channel (
    add_string on_null "name" (some (c_string r.name)) (
      add_uint "id" r.id (
        add_uint "period_us" r.period_us (
          add_uint "duty_permille" r.duty_permille (
            add_string on_null "fault_state" (fault_state_to_str r.fault_state)
              (add_uint "fault_duty_permille" r.fault_duty_permille no_members))))))

unfoldable pub build_pwm : Option Json → ℕ → PwmConfig → Json
unfolding pwm_members
build_pwm on_null channel r = object (pwm_members on_null channel r)

unfoldable pub system_members : Option Json → SystemConfig → Members
unfolding c_string
system_members on_null r = add_uint "canopen_node_id" r.canopen_node_id (
    add_string on_null "can_bitrate" (can_bitrate_to_str r.can_bitrate) (
      add_uint "heartbeat_ms" r.heartbeat_ms (
        add_uint "sync_window_us" r.sync_window_us (
          add_string on_null "nmt_startup" (nmt_startup_to_str r.nmt_startup)
            (add_uint "producer_emcy_cob_id" r.producer_emcy_cob_id no_members)))))

unfoldable pub build_system : Option Json → SystemConfig → Json
unfolding system_members
build_system on_null r = object (system_members on_null r)
