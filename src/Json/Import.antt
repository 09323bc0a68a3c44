-- ===== src/Json/Import.antt =====
-- The import: config_import_json and the macro APPLY_ARRAY. `none` is undefined behaviour: a cast
-- of a double to an int that cannot hold it, or a read past an array of the cache. The parser is
-- the parameter `parse`, what cJSON_ParseWithLength makes of the text.
use Prim.Native.String.{String}
use text.Mathlib.Text.{◌==◌}
use config_wp.Base.{
  ℕ, suc, ◌%◌, ◌^◌, Bool, true, false, not, ◌||◌, Option, none, some, List, get_or, set, replicate,
  if◌then◌else◌,
}
use config_wp.Base.Int.{pos}
use config_wp.Types.{SystemConfig}
use config_wp.Config.State.{Config, ConfigStatus, config_ok, err_invalid, err_codec}
use config_wp.Config.Access.{Got, refused, got, fault, config_get_system, config_set_system}
use config_wp.Config.Access.Channel.{
  Channel, di_channel, do_channel, tc_channel, ai_channel, ao_channel, pcnt_channel, pwm_channel,
}
use config_wp.Json.{
  Json, Members, Items, Number, no_items, item, no_members, member, null, number, array, object,
  get_object_item, below, truncate, fits_int,
}
use config_wp.Json.Enums.{Patched, ok, malformed, undefined, magnitude}
use config_wp.Json.Patch.Records.{
  patch_di_record, patch_do_record, patch_tc_record, patch_ai_record, patch_ao_record,
  patch_pcnt_record, patch_pwm_record, patch_system_record,
}
use config_wp.Json.Report.{
  Message, Report, report_reset, report_first_error, count_accepted, count_rejected, count_unknown,
  count_malformed, not_an_array, not_an_object, missing_channel, channel_out_of_range,
  duplicate_channel, malformed_field, setter_rejected, system_not_an_object, system_malformed_field,
  system_setter_rejected,
}

infixl 5 ◌>>=◌
abbrev pub ◌>>=◌ : {A B : Type 0} → Option A → (A → Option B) → Option B
none >>= f = none
some a >>= f = f a

-- What an import changes.
pub record Import : Type 0 where
  pub config : Config
  pub report : Report

-- What the loop over an array changes. `seen` is the word `_seen` as the list of its 32 bits.
pub record Sweep : Type 0 where
  pub seen : List Bool
  pub import : Import

abbrev pub is_ok : ConfigStatus → Bool
is_ok config_ok = true
is_ok _ = false

abbrev pub reject : Message → Import → Import
reject m s = record s { report = count_rejected (report_first_error s.report m) }

abbrev pub reject_silently : Import → Import
reject_silently s = record s { report = count_rejected s.report }

abbrev pub misshapen : Message → Import → Import
misshapen m s = record s { report = count_malformed (report_first_error s.report m) }

-- On what the setter returned.
abbrev pub finish_set : Message → Import → ConfigStatus × Config → Import
finish_set m s (status, c) =
    if is_ok status
    then record { config = c; report = count_accepted s.report }
    else reject m (record s { config = c })

module _ {A : Type 0} (arr_name : String) (k : Channel A) (patcher : Members → A → Patched A) where
  -- On what the patcher returned.
  abbrev pub apply_patched : ℕ → Import → Patched A → Option Import
  apply_patched idx s (ok v) =
      some (finish_set (setter_rejected arr_name idx) s (k.set_at s.config idx (some v)))
  apply_patched idx s malformed = some (reject (malformed_field arr_name idx) s)
  apply_patched idx s undefined = none

  -- On what the getter returned.
  abbrev pub apply_got : Members → ℕ → Import → Got A → Option Import
  apply_got obj idx s (refused status) = some (reject_silently s)
  apply_got obj idx s (got v) = apply_patched idx s (patcher obj v)
  apply_got obj idx s fault = none

  abbrev pub marked : List Bool → Option Import → Option Sweep
  marked seen none = none
  marked seen (some s) = some (record { seen = seen; import = s })

  abbrev pub apply_index : Members → ℕ → ℕ → Sweep → Option Sweep
  apply_index obj i idx w =
      if get_or w.seen idx false
      then some (record w { import = reject (duplicate_channel arr_name i idx) w.import })
      else marked (set w.seen idx true)
          (apply_got obj idx w.import (k.get_at w.import.config idx true))

  -- `(int)_chv` is an argument of the error message.
  abbrev pub apply_channel : Members → ℕ → Number → Sweep → Option Sweep
  apply_channel obj i v w =
      if below v (pos 0) || not (below v (pos k.count))
      then if fits_int v
        then some
            (record w { import = reject (channel_out_of_range arr_name i (truncate v)) w.import })
        else none
      else apply_index obj i (magnitude (truncate v) % 2 ^ 8) w

  abbrev pub apply_object : Members → ℕ → Option Json → Sweep → Option Sweep
  apply_object obj i (some (number v)) w = apply_channel obj i v w
  apply_object obj i _ w = some (record w { import = reject (missing_channel arr_name i) w.import })

  abbrev pub apply_item : Json → ℕ → Sweep → Option Sweep
  apply_item null i w = some w
  apply_item (object obj) i w = apply_object obj i (get_object_item obj "channel") w
  apply_item _ i w = some (record w { import = misshapen (not_an_object arr_name i) w.import })

  unfoldable pub apply_items : Items → ℕ → Sweep → Option Sweep
  apply_items no_items i w = some w
  apply_items (item j rest) i w = do w' ← apply_item j i w; apply_items rest (suc i) w'

  abbrev pub swept : Option Sweep → Option Import
  swept none = none
  swept (some w) = some w.import

  -- APPLY_ARRAY, on what the root has under the array's name.
  abbrev pub apply_found : Option Json → Import → Option Import
  apply_found none s = some s
  apply_found (some null) s = some s
  apply_found (some (array items)) s =
      swept (apply_items items 0 (record { seen = replicate 32 false; import = s }))
  apply_found (some _) s = some (misshapen (not_an_array arr_name) s)

  unfoldable pub apply_array : Members → Import → Option Import
  unfolding apply_items
  apply_array root s = apply_found (get_object_item root arr_name) s

abbrev pub system_patched : Import → Patched SystemConfig → Option Import
system_patched s (ok v) =
    some (finish_set system_setter_rejected s (config_set_system s.config (some v)))
system_patched s malformed = some (reject system_malformed_field s)
system_patched s undefined = none

abbrev pub system_got : Members → Import → Got SystemConfig → Option Import
system_got obj s (refused status) = some (reject_silently s)
system_got obj s (got v) = system_patched s (patch_system_record obj v)
system_got obj s fault = none

unfoldable pub import_system : Json → Import → Option Import
import_system (object obj) s = system_got obj s (config_get_system s.config true)
import_system _ s = some (misshapen system_not_an_object s)

-- One turn of the walk over the root's members.
unfoldable pub import_member : Members → String → Json → Import → Option Import
unfolding import_system apply_array
import_member root key child s =
    if key == "format"
    then some s
    else if key == "system"
    then import_system child s
    else if key == "di"
    then apply_array "di" di_channel patch_di_record root s
    else if key == "do"
    then apply_array "do" do_channel patch_do_record root s
    else if key == "tc"
    then apply_array "tc" tc_channel patch_tc_record root s
    else if key == "ai"
    then apply_array "ai" ai_channel patch_ai_record root s
    else if key == "ao"
    then apply_array "ao" ao_channel patch_ao_record root s
    else if key == "pcnt"
    then apply_array "pcnt" pcnt_channel patch_pcnt_record root s
    else if key == "pwm"
    then apply_array "pwm" pwm_channel patch_pwm_record root s
    else some (record s { report = count_unknown s.report })

unfoldable pub import_members : Members → Members → Import → Option Import
unfolding import_member
import_members root no_members s = some s
import_members root (member key child rest) s = do
  s' ← import_member root key child s
  import_members root rest s'

abbrev pub imported : Option Import → Option (ConfigStatus × Import)
imported none = none
imported (some s) = some (config_ok, s)

-- On what the parser made of the text.
unfoldable pub import_parsed : Option Json → Import → Option (ConfigStatus × Import)
unfolding import_members
import_parsed none s = some (err_codec, s)
import_parsed (some (object root)) s = imported (import_members root root s)
import_parsed (some _) s = some (err_invalid, s)

abbrev pub import_text :
    (List ℕ → Option Json) → Option (List ℕ) → Import → Option (ConfigStatus × Import)
import_text parse none s = some (err_invalid, s)
import_text parse (some json) s = import_parsed (parse json) s

unfoldable pub config_import_json :
    (List ℕ → Option Json) → Config → Option (List ℕ) → Option (ConfigStatus × Import)
unfolding import_parsed
config_import_json parse c json =
    import_text parse json (record { config = c; report = report_reset })
