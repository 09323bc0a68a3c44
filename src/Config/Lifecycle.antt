-- ===== src/Config/Lifecycle.antt =====
-- config_init, config_deinit, config_reset_defaults and config_save. A call of config_lock_create
-- is the argument that gives its result. `none` is a call that does not return: the theorems show
-- that there is none. What the scan of the slots leaves in s_blob_buf behind the payload, or where
-- it finds none, is not modelled: nothing reads it before config_save writes it.
use config_wp.Base.{ℕ, Bool, true, false, Option, none, some, length, not, if◌then◌else◌}
use config_wp.Base.Splice.{splice}
use config_wp.Crc32.{crc32_init}
use config_wp.Slot.{
  Picked, SlotStatus, picked, none_picked, slot_ok, err_no_valid, slot_pick_active, slot_write,
  slot_payload_max_bytes,
}
use config_wp.Config.State.{
  Config, World, ConfigStatus, config_ok, err_not_initialised, err_internal, err_storage,
}
use config_wp.Config.Defaults.{load_defaults_locked}
use config_wp.Config.Decode.{decode_blob_locked}
use config_wp.Config.Encode.{encode_cache_locked}

abbrev pub with_config : World → Config → World
with_config w c = record w { config = c }

abbrev pub start_with : Config → ConfigStatus × Config
start_with c = (config_ok, c)

-- What init makes of the scan of the slots, the payload being at the start of s_blob_buf.
abbrev pub load_picked : Config → Picked → Option (ConfigStatus × Config)
load_picked c (picked id payload) =
    let d = record c { blob_buf = splice 0 payload c.blob_buf } in
    decode_blob_locked d d.blob_buf (length payload)
load_picked c (none_picked err_no_valid) = some (config_ok, c)
load_picked c (none_picked _) = some (err_storage, c)

abbrev pub finish_init : World → Option (ConfigStatus × Config) → Option (ConfigStatus × World)
finish_init w none = none
finish_init w (some (status, c)) = some (status, with_config w (record c { initialised = true }))

unfoldable pub config_init : World → Bool → Option (ConfigStatus × World)
config_init w lock_created =
    if w.config.initialised
    then some (config_ok, w)
    else let v = record w { crc = crc32_init w.crc } in
      if not lock_created
      then some (err_internal, v)
      else finish_init v (
          load_picked (load_defaults_locked v.config)
            (slot_pick_active v.crc.table v.storage true slot_payload_max_bytes))

unfoldable pub config_deinit : World → World
config_deinit w =
    if not w.config.initialised
    then w
    else with_config w (record w.config { initialised = false; unknown_used = 0 })

unfoldable pub config_reset_defaults : World → ConfigStatus × World
config_reset_defaults w =
    if not w.config.initialised
    then (err_not_initialised, w)
    else (config_ok, with_config w (load_defaults_locked w.config))

abbrev pub save_status : SlotStatus → ConfigStatus
save_status slot_ok = config_ok
save_status _ = err_storage

abbrev pub write_blob : World → Config → ℕ → ConfigStatus × World
write_blob w c len =
    let (status, s) = slot_write w.crc.table w.storage (some c.blob_buf) len in
    (save_status status, record w { config = c; storage = s })

-- What config_save does with the encoded cache and its length.
abbrev pub save_encoded : World → Option (ConfigStatus × Config × ℕ) → Option (ConfigStatus × World)
save_encoded w none = none
save_encoded w (some (config_ok, c, len)) = some (write_blob w c len)
save_encoded w (some (status, c, len)) = some (status, with_config w c)

unfoldable pub config_save : World → Option (ConfigStatus × World)
config_save w =
    if not w.config.initialised
    then some (err_not_initialised, w)
    else save_encoded w (encode_cache_locked w.config slot_payload_max_bytes)
