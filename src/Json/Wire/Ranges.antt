-- ===== src/Json/Wire/Ranges.antt =====
-- Each enum that is read of a sized item is one of its values.
use config_wp.Base.{◌<◌}
use config_wp.Types.{
  fault_state_count, di_polarity_count, do_polarity_count, tc_type_count, tc_unit_count,
  ai_input_mode_count, ao_output_mode_count, pcnt_mode_count, pcnt_edge_count, can_bitrate_count,
  nmt_startup_count,
}
use config_wp.Json.{Json}
use config_wp.Json.Enums.{
  fault_state_from_json, fault_state_to_str, di_polarity_from_json, di_polarity_to_str,
  do_polarity_from_json, do_polarity_to_str, tc_type_from_json, tc_type_to_str, tc_unit_from_json,
  tc_unit_to_str, ai_input_mode_from_json, ai_input_mode_to_str, ao_output_mode_from_json,
  ao_output_mode_to_str, pcnt_mode_from_json, pcnt_mode_to_str, pcnt_edge_from_json,
  pcnt_edge_to_str, can_bitrate_from_json, can_bitrate_to_str, nmt_startup_from_json,
  nmt_startup_to_str,
}
use config_wp.Json.Sized.{IsSized, Holds}
use config_wp.Json.Wire.Enums.{enum_from_json_lem}

pub fault_state_range :
    (j : Json) → IsSized j → Holds (λ x. x < fault_state_count) (fault_state_from_json j)
unfolding fault_state_from_json
fault_state_range j sized = enum_from_json_lem j fault_state_count fault_state_to_str sized

pub di_polarity_range :
    (j : Json) → IsSized j → Holds (λ x. x < di_polarity_count) (di_polarity_from_json j)
unfolding di_polarity_from_json
di_polarity_range j sized = enum_from_json_lem j di_polarity_count di_polarity_to_str sized

pub do_polarity_range :
    (j : Json) → IsSized j → Holds (λ x. x < do_polarity_count) (do_polarity_from_json j)
unfolding do_polarity_from_json
do_polarity_range j sized = enum_from_json_lem j do_polarity_count do_polarity_to_str sized

pub tc_type_range : (j : Json) → IsSized j → Holds (λ x. x < tc_type_count) (tc_type_from_json j)
unfolding tc_type_from_json
tc_type_range j sized = enum_from_json_lem j tc_type_count tc_type_to_str sized

pub tc_unit_range : (j : Json) → IsSized j → Holds (λ x. x < tc_unit_count) (tc_unit_from_json j)
unfolding tc_unit_from_json
tc_unit_range j sized = enum_from_json_lem j tc_unit_count tc_unit_to_str sized

pub ai_input_mode_range :
    (j : Json) → IsSized j → Holds (λ x. x < ai_input_mode_count) (ai_input_mode_from_json j)
unfolding ai_input_mode_from_json
ai_input_mode_range j sized = enum_from_json_lem j ai_input_mode_count ai_input_mode_to_str sized

pub ao_output_mode_range :
    (j : Json) → IsSized j → Holds (λ x. x < ao_output_mode_count) (ao_output_mode_from_json j)
unfolding ao_output_mode_from_json
ao_output_mode_range j sized = enum_from_json_lem j ao_output_mode_count ao_output_mode_to_str sized

pub pcnt_mode_range :
    (j : Json) → IsSized j → Holds (λ x. x < pcnt_mode_count) (pcnt_mode_from_json j)
unfolding pcnt_mode_from_json
pcnt_mode_range j sized = enum_from_json_lem j pcnt_mode_count pcnt_mode_to_str sized

pub pcnt_edge_range :
    (j : Json) → IsSized j → Holds (λ x. x < pcnt_edge_count) (pcnt_edge_from_json j)
unfolding pcnt_edge_from_json
pcnt_edge_range j sized = enum_from_json_lem j pcnt_edge_count pcnt_edge_to_str sized

pub can_bitrate_range :
    (j : Json) → IsSized j → Holds (λ x. x < can_bitrate_count) (can_bitrate_from_json j)
unfolding can_bitrate_from_json
can_bitrate_range j sized = enum_from_json_lem j can_bitrate_count can_bitrate_to_str sized

pub nmt_startup_range :
    (j : Json) → IsSized j → Holds (λ x. x < nmt_startup_count) (nmt_startup_from_json j)
unfolding nmt_startup_from_json
nmt_startup_range j sized = enum_from_json_lem j nmt_startup_count nmt_startup_to_str sized
