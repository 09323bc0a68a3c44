-- ===== src/Tests/Manager.antt =====
-- Runs of the manager: the first boot of a new device, a change, a save and the next boot.
use config_wp.Base.{
  none, All, ℕ, ◌≡◌, refl, sym, subst, true, false, some, List, [], ◌∷◌, ◌++◌, length, take,
  replicate, inl, arith, length-replicate,
}
use config_wp.Types.{DiConfig}
use config_wp.Storage.Laws.{init-IsReady}
use config_wp.Slot.{slot_a, slot_b, slot_payload_max_bytes}
use config_wp.Slot.Boot.{IsBlank}
use config_wp.Slot.Torn.{torn}
use config_wp.Config.Crash.{over_storage, init-torn}
use config_wp.Tests.Slots.{first_run, two, blank, off, blank_a, blank_b}
use config_wp.Tlv.{record_bytes, write_u16_le}
use config_wp.Codec.Tag.{config_codec_tag_domain, config_codec_tag_index}
use config_wp.Config.State.{
  Config, ConfigStatus, World, config_ok, err_too_large, unknown_buf_bytes,
}
use config_wp.Config.Defaults.{default_cache, di_default}
use config_wp.Config.Decode.{decode_blob_locked, preserve_unknown_locked}
use config_wp.Config.Decode.Total.{decode_blob-Returns}
use config_wp.Config.Encode.{encode_cache_locked}
use config_wp.Config.Encode.Blob.{IsSaveable, blob_entries, encode-stream, encode_too_large}
use config_wp.Config.Stash.{IsStash, SameButStash, is_known, preserve-IsStash}
use config_wp.Config.Stream.{Entry, stream}
use config_wp.Config.Access.{got, config_get_di, config_set_di}
use config_wp.Config.Access.Channel.{di_channel}
use config_wp.Config.Access.Laws.{get-set, set_outcome, SetOutcome}
use config_wp.Config.Validate.{validate_di, name_is_terminated}
use config_wp.Config.Lifecycle.{config_init, config_deinit, config_save}
use config_wp.Config.Boot.{IsRunning}
use config_wp.Config.FirstBoot.{init-IsBlank, init-Starts}
use config_wp.Config.Calls.{SetCall, on_di, on_ao, run_calls, IsTyped, IsValidCache, Keeps}
use config_wp.Config.Calls.Keeps.{calls-Keeps}
use config_wp.Config.Session.{default-IsValidCache, init-calls}
use config_wp.Config.Persist.{init-save}

-- The state that the program starts with.
abbrev pub powered_up : World
powered_up = record {
  config = record {
    cache = default_cache;
    unknown = replicate unknown_buf_bytes 0;
    unknown_used = 0;
    blob_buf = replicate slot_payload_max_bytes 0;
    initialised = false;
  };
  crc = record { table = []; table_ready = false };
  storage = blank;
}

pub blank_storage : IsBlank powered_up.storage
blank_storage = record { ready = init-IsReady off; no_a = blank_a; no_b = blank_b }

init-IsBlank_example :
    (u : World) × (config_init powered_up true ≡ some (config_ok, u))
    × (u.config.cache ≡ default_cache)
    × (u.storage ≡ powered_up.storage)
    × IsRunning u []
init-IsBlank_example =
    init-IsBlank powered_up refl (length-replicate {A = ℕ} unknown_buf_bytes 0)
      (length-replicate {A = ℕ} slot_payload_max_bytes 0) blank_storage

init-Starts_example :
    (status : ConfigStatus) × (v : World) × (config_init powered_up true ≡ some (status, v))
    × (v.config.initialised ≡ true)
init-Starts_example = init-Starts powered_up

abbrev pub started :
    (u : World) × (config_init powered_up true ≡ some (config_ok, u))
    × (u.config.cache ≡ default_cache)
    × (u.storage ≡ powered_up.storage)
    × IsRunning u []
started =
    init-IsBlank powered_up refl (length-replicate {A = ℕ} unknown_buf_bytes 0)
      (length-replicate {A = ℕ} slot_payload_max_bytes 0) blank_storage

init-save_example :
    (t : World) × (u : World) × (config_save started.0 ≡ some (config_ok, t))
    × (config_init (config_deinit t) true ≡ some (config_ok, u))
    × (u.config.cache ≡ started.0.config.cache)
    × IsRunning u []
init-save_example =
    init-save started.0 [] started.4 (inl (subst IsBlank (sym started.3) blank_storage))
      (omega arith)

encode-stream_example :
    (mem : List ℕ) × (n : ℕ) × (encode_cache_locked started.0.config slot_payload_max_bytes
      ≡ some (config_ok, record started.0.config { blob_buf = mem }, n))
    × (length mem ≡ slot_payload_max_bytes)
    × (n ≡ length (stream (blob_entries started.0.config [])))
    × (take n mem ≡ stream (blob_entries started.0.config []))
encode-stream_example = encode-stream started.0.config [] started.4.saveable (omega arith)

decode_blob-Returns_example :
    (r : ConfigStatus × Config) × (decode_blob_locked powered_up.config (3 ∷ 1 ∷ 200 ∷ 0 ∷ 7 ∷ []) 5
      ≡ some r)
decode_blob-Returns_example =
    decode_blob-Returns powered_up.config (3 ∷ 1 ∷ 200 ∷ 0 ∷ 7 ∷ []) 5 (omega arith)

not_known : is_known 0x7700 ≡ false
unfolding is_known config_codec_tag_domain config_codec_tag_index
not_known = refl

preserve-IsStash_example :
    (d : Config) × (preserve_unknown_locked started.0.config 0x7700 (1 ∷ 2 ∷ []) 2 ≡ d)
    × IsStash d ((0x7700, 1 ∷ 2 ∷ []) ∷ [])
    × SameButStash d started.0.config
preserve-IsStash_example =
    preserve-IsStash started.0.config [] 0x7700 (1 ∷ 2 ∷ []) started.4.saveable.stash
      (omega arith, omega arith) not_known (omega (arith, started.4.saveable.stash.used))

-- An input with the id 7 and a longer debounce.
abbrev changed : DiConfig
changed = record di_default { id = 7; debounce_ms = 25 }

changed_valid : validate_di changed ≡ true
unfolding validate_di name_is_terminated
changed_valid = refl

get-set_example :
    (d : Config) × (config_set_di started.0.config 3 (some changed) ≡ (config_ok, d))
    × (config_get_di d 3 true ≡ got changed)
    × (config_get_di d 4 true ≡ config_get_di started.0.config 4 true)
unfolding di_channel
get-set_example =
    get-set di_channel started.0.config started.4.initialised 3 (omega arith) changed 4
      started.4.saveable.wire.di_count changed_valid (omega arith) (λ e. omega (arith, e))

set_outcome_example : SetOutcome di_channel started.0.config 99 (some changed)
set_outcome_example = set_outcome di_channel started.0.config 99 (some changed)

-- A record of 400 bytes that a newer program wrote.
abbrev newer_records : List Entry
newer_records = (0x7700, replicate 400 9) ∷ []

abbrev crowded : Config
crowded = record started.0.config {
  unknown = record_bytes 0x7700 (replicate 400 9) ++ replicate 620 0;
  unknown_used = 404;
}

crowded-IsSaveable : IsSaveable crowded newer_records
unfolding record_bytes write_u16_le
crowded-IsSaveable = record {
  wire = started.4.saveable.wire;
  stash = record {
    size = refl;
    used = refl;
    fits = omega arith;
    held = refl;
    entries = ((omega arith, omega arith), tt);
    unknown = (not_known, tt);
  };
  blob_size = started.4.saveable.blob_size;
}

encode_too_large_example :
    (d : Config) × (n : ℕ) × (encode_cache_locked crowded slot_payload_max_bytes
      ≡ some (err_too_large, d, n))
unfolding record_bytes write_u16_le
encode_too_large_example = encode_too_large crowded newer_records crowded-IsSaveable (omega arith)

abbrev pub two_calls : List SetCall
two_calls = on_di 3 (some changed) ∷ on_ao 200 none ∷ []

pub two_calls-IsTyped : All IsTyped two_calls
two_calls-IsTyped = (
  record {
    name = record { full = refl; terminated = refl };
    id = omega arith;
    debounce_ms = omega arith;
    polarity = omega arith;
    fault_state = omega arith;
  },
  (tt, tt),
)

pub started-IsValidCache : IsValidCache started.0.config.cache
started-IsValidCache = subst IsValidCache (sym started.2) default-IsValidCache

calls-Keeps_example : Keeps started.0.config (run_calls two_calls started.0.config)
calls-Keeps_example = calls-Keeps two_calls started.0.config two_calls-IsTyped started-IsValidCache

init-calls_example :
    (t : World) × (u : World) × (config_save
        (record started.0 { config = run_calls two_calls started.0.config })
      ≡ some (config_ok, t))
    × (config_init (config_deinit t) true ≡ some (config_ok, u))
    × (u.config.cache ≡ (run_calls two_calls started.0.config).cache)
    × IsValidCache u.config.cache
    × IsRunning u []
init-calls_example =
    init-calls started.0 [] two_calls started.4 started-IsValidCache two_calls-IsTyped
      (inl (subst IsBlank (sym started.3) blank_storage)) (omega arith)

-- A device that boots after `one` was written to slot A.
abbrev rebooted : World
rebooted = record powered_up { storage = first_run.0 }

init-torn_example :
    config_init (record rebooted { storage = torn rebooted.storage slot_b two 1 }) true
    ≡ over_storage (torn rebooted.storage slot_b two 1) (config_init rebooted true)
init-torn_example = init-torn rebooted slot_a first_run.1 two 1 refl first_run.3 (omega arith)
