-- ===== src/Eeprom/Start.antt =====
-- eeprom_manager_init of src/application/eeprom_manager.c, but for the queue and the task that it
-- creates: the storage driver is set up, then the manager.
use config_wp.Base.{◌≡◌, refl, true, false, Bool, Option, some, [], length}
use config_wp.Base.Splice.{slice}
use config_wp.Codec.Cursor.{get_u16, get_u32}
use config_wp.Storage.{Storage, storage_init, storage_read}
use config_wp.Storage.Laws.{init-IsReady}
use config_wp.Slot.{
  slot_payload_max_bytes, sane_header, slot_read_header, slot_header_looks_sane, get_header,
}
use config_wp.Slot.Boot.{IsBlank}
use config_wp.Config.State.{World, ConfigStatus, config_ok, unknown_buf_bytes}
use config_wp.Config.Defaults.{default_cache}
use config_wp.Config.Lifecycle.{config_init}
use config_wp.Config.Boot.{IsRunning}
use config_wp.Config.FirstBoot.{init-IsBlank}

-- storage_init of the in-memory driver cannot fail, and a failure would be printed only.
unfoldable pub eeprom_manager_init : World → Bool → Option (ConfigStatus × World)
eeprom_manager_init w lock_created =
    config_init (record w { storage = (storage_init w.storage).1 }) lock_created

-- Storage as the driver sets it up has no sane header.
init-IsBlank_storage : (s : Storage) → IsBlank (storage_init s).1
unfolding sane_header slot_read_header slot_header_looks_sane get_header get_u16 get_u32
    storage_read storage_init slice
init-IsBlank_storage s = record { ready = init-IsReady s; no_a = refl; no_b = refl }

-- On a manager that is not initialised, with buffers of the sizes that the program gives them,
-- whatever the storage driver held, eeprom_manager_init returns CONFIG_OK with the factory
-- defaults as the cache and a running manager that preserves no records.
pub manager_init-IsRunning :
    (w : World)
    → w.config.initialised ≡ false
    → length w.config.unknown ≡ unknown_buf_bytes
    → length w.config.blob_buf ≡ slot_payload_max_bytes
    → (u : World) × (eeprom_manager_init w true ≡ some (config_ok, u))
      × (u.config.cache ≡ default_cache)
      × IsRunning u []
unfolding eeprom_manager_init
manager_init-IsRunning w off size blob_size =
    let (u, starts, defaults, same, running) =
      init-IsBlank (record w { storage = (storage_init w.storage).1 }) off size blob_size
        (init-IsBlank_storage w.storage) in
    (u, starts, defaults, running)
