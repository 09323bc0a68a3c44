-- ===== src/Config/Validate.antt =====
-- The validators that the setters call. A comparison `(unsigned)x >= N` reads the enum's bits.
use config_wp.Base.{
  ℕ, Bool, true, false, List, get_or, ltb, leb, not, ◌||◌, ◌&&◌, ◌==◌, if◌then◌else◌,
}
use config_wp.Base.Int.{is_zero}
use config_wp.Types.{
  DiConfig, DoConfig, TcConfig, AiConfig, AoConfig, PcntConfig, PwmConfig, SystemConfig,
  fault_state_count, di_polarity_count, do_polarity_count, tc_type_count, tc_unit_count,
  ai_input_mode_count, ao_output_mode_count, pcnt_mode_count, pcnt_edge_count, can_bitrate_count,
  nmt_startup_count,
}

-- name[CONFIG_NAME_LEN - 1] == '\0'
unfoldable pub name_is_terminated : List ℕ → Bool
name_is_terminated name = get_or name 15 0 == 0

unfoldable pub validate_di : DiConfig → Bool
validate_di r =
    if not (name_is_terminated r.name)
    then false
    else if leb di_polarity_count r.polarity
    then false
    else if leb fault_state_count r.fault_state
    then false
    else true

unfoldable pub validate_do : DoConfig → Bool
validate_do r =
    if not (name_is_terminated r.name)
    then false
    else if leb do_polarity_count r.polarity
    then false
    else if leb fault_state_count r.fault_state
    then false
    else true

unfoldable pub validate_tc : TcConfig → Bool
validate_tc r =
    if not (name_is_terminated r.name)
    then false
    else if leb tc_type_count r.tc_type
    then false
    else if leb tc_unit_count r.unit
    then false
    else if leb fault_state_count r.fault_state
    then false
    else true

unfoldable pub validate_ai : AiConfig → Bool
validate_ai r =
    if not (name_is_terminated r.name)
    then false
    else if leb ai_input_mode_count r.input_mode
    then false
    else if leb fault_state_count r.fault_state
    then false
    else if is_zero r.scale_den
    then false
    else true

unfoldable pub validate_ao : AoConfig → Bool
validate_ao r =
    if not (name_is_terminated r.name)
    then false
    else if leb ao_output_mode_count r.output_mode
    then false
    else if leb fault_state_count r.fault_state
    then false
    else if is_zero r.scale_den
    then false
    else true

unfoldable pub validate_pcnt : PcntConfig → Bool
validate_pcnt r =
    if not (name_is_terminated r.name)
    then false
    else if leb pcnt_mode_count r.mode
    then false
    else if leb pcnt_edge_count r.edge
    then false
    else true

unfoldable pub validate_pwm : PwmConfig → Bool
validate_pwm r =
    if not (name_is_terminated r.name)
    then false
    else if r.period_us == 0
    then false
    else if ltb 1000 r.duty_permille
    then false
    else if ltb 1000 r.fault_duty_permille
    then false
    else if leb fault_state_count r.fault_state
    then false
    else true

unfoldable pub validate_system : SystemConfig → Bool
validate_system r =
    if ltb r.canopen_node_id 1 || ltb 127 r.canopen_node_id
    then false
    else if leb can_bitrate_count r.can_bitrate
    then false
    else if leb nmt_startup_count r.nmt_startup
    then false
    else if not (r.producer_emcy_cob_id == 0) && ltb r.producer_emcy_cob_id 0x81
    then false
    else true
