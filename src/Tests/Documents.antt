-- ===== src/Tests/Documents.antt =====
-- Imports and exports of JSON documents on concrete managers.
use config_wp.Base.{
  some_injective, ℕ, ◌≡◌, ◌<◌, refl, ap, subst, inr, true, false, Option, none, some, List, [], set,
  replicate, arith, All-replicate,
}
use config_wp.Base.Int.{pos}
use config_wp.Types.{TcConfig, tc_unit_kelvin}
use config_wp.Types.Wire.{IsWireTc}
use config_wp.Config.State.{Config, config_ok, unknown_buf_bytes}
use config_wp.Config.Defaults.{
  default_cache, di_default, do_default, tc_default, ai_default, ao_default, pcnt_default,
  pwm_default, empty_name,
}
use config_wp.Config.Validate.{validate_di, validate_tc, name_is_terminated}
use config_wp.Config.Access.Channel.{di_channel}
use config_wp.Config.Session.{default-IsValidCache}
use config_wp.Json.{
  Json, Members, Items, Number, null, number, array, object, no_items, item, no_members, member,
  of_int, below, above, truncate, fits_int, codes,
}
use config_wp.Json.Enums.{ok}
use config_wp.Json.Patch.{patch_string, patch_uint, patch_enum, patch_bool}
use config_wp.Config.Access.{config_get_di, config_set_di}
use config_wp.Json.Patch.Records.{patch_di_record, patch_tc_record}
use config_wp.Json.Build.{tc_members, c_string}
use config_wp.Json.Report.{report_reset, duplicate_channel}
use config_wp.Json.Import.{
  Sweep, reject, config_import_json, import_parsed, apply_item, apply_items,
}
use config_wp.Json.Export.{config_export_json, export_members}
use config_wp.Json.RoundTrip.{IsTidy}
use config_wp.Json.RoundTrip.Kelvin.{tc_kelvin_lost}
use config_wp.Json.Restore.Arrays.{IsPortable}
use config_wp.Json.Restore.Whole.{export-import, all_accepted}
use config_wp.Json.Sized.{IsSized}
use config_wp.Json.Calls.Document.{Ends, config_import_json-Ends}
use config_wp.Json.Duplicates.{first_wins}

abbrev pub with_defaults : Config
with_defaults = record {
  cache = default_cache;
  unknown = replicate unknown_buf_bytes 0;
  unknown_used = 0;
  blob_buf = [];
  initialised = true;
}

tidy : IsTidy empty_name
unfolding c_string
tidy = record { short = omega arith; padded = refl }

default-IsPortable : IsPortable default_cache
unfolding default_cache
default-IsPortable = record {
  valid = default-IsValidCache;
  di = All-replicate (λ r. IsTidy r.name) 16 di_default tidy;
  do_ = All-replicate (λ r. IsTidy r.name) 16 do_default tidy;
  tc = All-replicate (λ r. IsTidy r.name) 4 tc_default tidy;
  ai = All-replicate (λ r. IsTidy r.name) 8 ai_default tidy;
  ao = All-replicate (λ r. IsTidy r.name) 4 ao_default tidy;
  pcnt = All-replicate (λ r. IsTidy r.name) 4 pcnt_default tidy;
  pwm = All-replicate (λ r. IsTidy r.name) 4 pwm_default tidy;
  tc_units = All-replicate (λ r. r.unit < tc_unit_kelvin) 4 tc_default (omega arith);
}

-- A printer and a parser that agree on the export of the defaults, whatever the text is.
abbrev some_text : List ℕ
some_text = codes "{...}"

abbrev some_print : Json → Option (List ℕ)
some_print j = some some_text

abbrev as_tree : Option Members → Option Json
as_tree none = none
as_tree (some root) = some (object root)

abbrev some_parse : List ℕ → Option Json
some_parse text = as_tree (export_members none with_defaults)

export-import_example :
    (config_export_json some_print none with_defaults true true 16384
      ≡ some (config_ok, some some_text))
    × (config_import_json some_parse with_defaults (some some_text)
        ≡ some (config_ok, record { config = with_defaults; report = all_accepted }))
export-import_example =
    export-import some_print some_parse none with_defaults with_defaults 16384 some_text refl refl
      default-IsPortable default-IsValidCache (λ root e. (refl, ap as_tree e)) (omega arith)

-- `{ "di": [ { "channel": 9, "debounce_ms": 100 } ] }`, the patch of the demonstration.
abbrev pub patch_9 : Members
patch_9 =
    member "channel" (number (of_int (pos 9)))
      (member "debounce_ms" (number (of_int (pos 100))) no_members)

abbrev pub demo_patch : Json
demo_patch = object (member "di" (array (item (object patch_9) no_items)) no_members)

demo_patch-IsSized : IsSized demo_patch
unfolding fits_int
demo_patch-IsSized = (inr (((inr refl, (inr refl, tt)), tt)), tt)

config_import_json-Ends_example :
    Ends with_defaults (config_import_json (λ text. some demo_patch) with_defaults (some some_text))
config_import_json-Ends_example =
    config_import_json-Ends (λ text. some demo_patch) with_defaults (some some_text)
      (λ text root e f. subst IsSized (some_injective f) demo_patch-IsSized) default-IsValidCache

-- The record is applied, and the other fields of the channel stay.
demo_patch_applies :
    import_parsed (some demo_patch) (record { config = with_defaults; report = report_reset })
    ≡ some (
      config_ok,
      record {
        config = record with_defaults {
          cache = record default_cache {
            di = set default_cache.di 9 (record di_default { debounce_ms = 100 });
          };
        };
        report = record report_reset { accepted = 1 };
      },
    )
unfolding import_parsed di_channel patch_di_record default_cache name_is_terminated patch_string
    patch_uint patch_enum patch_bool below truncate above validate_di config_get_di config_set_di
demo_patch_applies = refl

abbrev fresh : Sweep
fresh = record {
  seen = replicate 32 false;
  import = record { config = with_defaults; report = report_reset };
}

-- A second record for the same channel, and one for a channel between 9 and 10.
abbrev twice_9 : Items
twice_9 =
    item (object patch_9)
      (item null (item (object (member "channel" (number (of_int (pos 3))) no_members)) no_items))

abbrev nine_and_a_half : Number
nine_and_a_half = record { negative = false; whole = 9; fraction = true }

abbrev end_of_twice : Sweep
end_of_twice = record {
  seen = set (set (replicate 32 false) 9 true) 3 true;
  import = record {
    config = record with_defaults {
      cache = record default_cache {
        di = set default_cache.di 9 (record di_default { debounce_ms = 100 });
      };
    };
    report = record report_reset { accepted = 2 };
  };
}

twice_runs : apply_items "di" di_channel patch_di_record twice_9 0 fresh ≡ some end_of_twice
unfolding apply_items di_channel patch_di_record default_cache name_is_terminated patch_string
    patch_uint patch_enum patch_bool below truncate above validate_di config_get_di config_set_di
twice_runs = refl

first_wins_example :
    apply_item "di" di_channel patch_di_record
      (object (member "channel" (number nine_and_a_half) no_members))
      3
      end_of_twice
    ≡ some
        (record end_of_twice { import = reject (duplicate_channel "di" 3 9) end_of_twice.import })
unfolding below truncate di_channel
first_wins_example =
    first_wins "di" di_channel patch_di_record patch_9
      (member "channel" (number nine_and_a_half) no_members) (of_int (pos 9)) nine_and_a_half
      (item null (item (object (member "channel" (number (of_int (pos 3))) no_members)) no_items)) 0
      3 fresh end_of_twice refl refl refl refl refl (omega arith) twice_runs

abbrev kelvin : TcConfig
kelvin = record tc_default { unit = tc_unit_kelvin; filter_ms = 7 }

kelvin-IsWireTc : IsWireTc kelvin
kelvin-IsWireTc = record {
  name = record { full = refl; terminated = refl };
  id = omega arith;
  tc_type = omega arith;
  unit = omega arith;
  filter_ms = omega arith;
  fault_state = omega arith;
  fault_value_c10 = omega arith;
}

kelvin_is_valid : validate_tc kelvin ≡ true
unfolding validate_tc name_is_terminated
kelvin_is_valid = refl

tc_kelvin_lost_example :
    patch_tc_record (tc_members none 2 kelvin) tc_default
    ≡ ok (record kelvin { unit = tc_default.unit })
tc_kelvin_lost_example =
    tc_kelvin_lost 2 kelvin tc_default kelvin-IsWireTc tidy kelvin_is_valid refl
