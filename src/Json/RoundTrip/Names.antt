-- ===== src/Json/RoundTrip/Names.antt =====
-- Every value of an enum has a string that reads as the value, but for TC_UNIT_KELVIN.
use config_wp.Base.{ℕ, zero, suc, ◌<◌, refl, arith}
use config_wp.Types.{
  fault_state_count, di_polarity_count, do_polarity_count, tc_type_count, tc_unit_kelvin,
  ai_input_mode_count, ao_output_mode_count, pcnt_mode_count, pcnt_edge_count, can_bitrate_count,
  nmt_startup_count,
}
use config_wp.Json.Enums.{
  fault_state_to_str, fault_state_from_json, di_polarity_to_str, di_polarity_from_json,
  do_polarity_to_str, do_polarity_from_json, tc_type_to_str, tc_type_from_json, tc_unit_to_str,
  tc_unit_from_json, ai_input_mode_to_str, ai_input_mode_from_json, ao_output_mode_to_str,
  ao_output_mode_from_json, pcnt_mode_to_str, pcnt_mode_from_json, pcnt_edge_to_str,
  pcnt_edge_from_json, can_bitrate_to_str, can_bitrate_from_json, nmt_startup_to_str,
  nmt_startup_from_json,
}
use config_wp.Json.RoundTrip.{IsNamed}

pub fault_state-IsNamed :
    (v : ℕ) → v < fault_state_count → IsNamed fault_state_to_str fault_state_from_json v
unfolding fault_state_to_str fault_state_from_json
fault_state-IsNamed zero h = (_, refl, refl)
fault_state-IsNamed (suc zero) h = (_, refl, refl)
fault_state-IsNamed (suc (suc zero)) h = (_, refl, refl)
fault_state-IsNamed (suc (suc (suc v))) h = absurd (omega arith)

pub di_polarity-IsNamed :
    (v : ℕ) → v < di_polarity_count → IsNamed di_polarity_to_str di_polarity_from_json v
unfolding di_polarity_to_str di_polarity_from_json
di_polarity-IsNamed zero h = (_, refl, refl)
di_polarity-IsNamed (suc zero) h = (_, refl, refl)
di_polarity-IsNamed (suc (suc v)) h = absurd (omega arith)

pub do_polarity-IsNamed :
    (v : ℕ) → v < do_polarity_count → IsNamed do_polarity_to_str do_polarity_from_json v
unfolding do_polarity_to_str do_polarity_from_json
do_polarity-IsNamed zero h = (_, refl, refl)
do_polarity-IsNamed (suc zero) h = (_, refl, refl)
do_polarity-IsNamed (suc (suc v)) h = absurd (omega arith)

pub tc_type-IsNamed : (v : ℕ) → v < tc_type_count → IsNamed tc_type_to_str tc_type_from_json v
unfolding tc_type_to_str tc_type_from_json
tc_type-IsNamed zero h = (_, refl, refl)
tc_type-IsNamed (suc zero) h = (_, refl, refl)
tc_type-IsNamed (suc (suc zero)) h = (_, refl, refl)
tc_type-IsNamed (suc (suc (suc zero))) h = (_, refl, refl)
tc_type-IsNamed (suc (suc (suc (suc zero)))) h = (_, refl, refl)
tc_type-IsNamed (suc (suc (suc (suc (suc zero))))) h = (_, refl, refl)
tc_type-IsNamed (suc (suc (suc (suc (suc (suc zero)))))) h = (_, refl, refl)
tc_type-IsNamed (suc (suc (suc (suc (suc (suc (suc zero))))))) h = (_, refl, refl)
tc_type-IsNamed (suc (suc (suc (suc (suc (suc (suc (suc v)))))))) h = absurd (omega arith)

pub tc_unit-IsNamed : (v : ℕ) → v < tc_unit_kelvin → IsNamed tc_unit_to_str tc_unit_from_json v
unfolding tc_unit_to_str tc_unit_from_json
tc_unit-IsNamed zero h = (_, refl, refl)
tc_unit-IsNamed (suc zero) h = (_, refl, refl)
tc_unit-IsNamed (suc (suc v)) h = absurd (omega arith)

pub ai_input_mode-IsNamed :
    (v : ℕ) → v < ai_input_mode_count → IsNamed ai_input_mode_to_str ai_input_mode_from_json v
unfolding ai_input_mode_to_str ai_input_mode_from_json
ai_input_mode-IsNamed zero h = (_, refl, refl)
ai_input_mode-IsNamed (suc zero) h = (_, refl, refl)
ai_input_mode-IsNamed (suc (suc zero)) h = (_, refl, refl)
ai_input_mode-IsNamed (suc (suc (suc v))) h = absurd (omega arith)

pub ao_output_mode-IsNamed :
    (v : ℕ) → v < ao_output_mode_count → IsNamed ao_output_mode_to_str ao_output_mode_from_json v
unfolding ao_output_mode_to_str ao_output_mode_from_json
ao_output_mode-IsNamed zero h = (_, refl, refl)
ao_output_mode-IsNamed (suc zero) h = (_, refl, refl)
ao_output_mode-IsNamed (suc (suc v)) h = absurd (omega arith)

pub pcnt_mode-IsNamed :
    (v : ℕ) → v < pcnt_mode_count → IsNamed pcnt_mode_to_str pcnt_mode_from_json v
unfolding pcnt_mode_to_str pcnt_mode_from_json
pcnt_mode-IsNamed zero h = (_, refl, refl)
pcnt_mode-IsNamed (suc zero) h = (_, refl, refl)
pcnt_mode-IsNamed (suc (suc v)) h = absurd (omega arith)

pub pcnt_edge-IsNamed :
    (v : ℕ) → v < pcnt_edge_count → IsNamed pcnt_edge_to_str pcnt_edge_from_json v
unfolding pcnt_edge_to_str pcnt_edge_from_json
pcnt_edge-IsNamed zero h = (_, refl, refl)
pcnt_edge-IsNamed (suc zero) h = (_, refl, refl)
pcnt_edge-IsNamed (suc (suc zero)) h = (_, refl, refl)
pcnt_edge-IsNamed (suc (suc (suc v))) h = absurd (omega arith)

pub can_bitrate-IsNamed :
    (v : ℕ) → v < can_bitrate_count → IsNamed can_bitrate_to_str can_bitrate_from_json v
unfolding can_bitrate_to_str can_bitrate_from_json
can_bitrate-IsNamed zero h = (_, refl, refl)
can_bitrate-IsNamed (suc zero) h = (_, refl, refl)
can_bitrate-IsNamed (suc (suc zero)) h = (_, refl, refl)
can_bitrate-IsNamed (suc (suc (suc zero))) h = (_, refl, refl)
can_bitrate-IsNamed (suc (suc (suc (suc v)))) h = absurd (omega arith)

pub nmt_startup-IsNamed :
    (v : ℕ) → v < nmt_startup_count → IsNamed nmt_startup_to_str nmt_startup_from_json v
unfolding nmt_startup_to_str nmt_startup_from_json
nmt_startup-IsNamed zero h = (_, refl, refl)
nmt_startup-IsNamed (suc zero) h = (_, refl, refl)
nmt_startup-IsNamed (suc (suc v)) h = absurd (omega arith)
