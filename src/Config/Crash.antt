-- ===== src/Config/Crash.antt =====
-- config_init after a power failure inside the save before it.
use config_wp.Base.{ℕ, ◌≤◌, ◌≡◌, refl, ap, sym, ◌∙◌, true, false, Option, some, none, List, length}
use config_wp.Crc32.{crc32_init}
use config_wp.Storage.{Storage}
use config_wp.Slot.{SlotHeader, SlotId, slot_payload_max_bytes}
use config_wp.Slot.Frame.{other}
use config_wp.Slot.Active.{IsActive}
use config_wp.Slot.Torn.{torn, pick-torn}
use config_wp.Config.State.{Config, ConfigStatus, World}
use config_wp.Config.Lifecycle.{config_init, finish_init}
use config_wp.Config.Boot.{load, config_init-off}

-- The result of a call, with other contents of the storage.
abbrev pub over_storage : Storage → Option (ConfigStatus × World) → Option (ConfigStatus × World)
over_storage s none = none
over_storage s (some (status, w)) = some (status, record w { storage = s })

finish-over_storage :
    (w : World) (s : Storage) (o : Option (ConfigStatus × Config))
    → finish_init (record w { storage = s }) o ≡ over_storage s (finish_init w o)
finish-over_storage w s none = refl
finish-over_storage w s (some (status, c)) = refl

-- Where a manager is not initialised, a slot of the storage is active, and a write to the other
-- slot was cut after any number of bytes of a payload that fits: config_init returns the status,
-- and the state of the manager, that it returns without that write.
pub init-torn :
    (w : World) (id : SlotId) (h : SlotHeader) (payload : List ℕ) (k : ℕ)
    → w.config.initialised ≡ false
    → IsActive (crc32_init w.crc).table w.storage id h
    → length payload ≤ slot_payload_max_bytes
    → config_init (record w { storage = torn w.storage (other id) payload k }) true
      ≡ over_storage (torn w.storage (other id) payload k) (config_init w true)
init-torn w id h payload k off active fits =
    let s = torn w.storage (other id) payload k in
    config_init-off (record w { storage = s }) off
    ∙ ap (load (record w { storage = s }))
        (pick-torn (crc32_init w.crc).table w.storage id h payload k active fits)
    ∙ finish-over_storage (record w { crc = crc32_init w.crc }) s _
    ∙ ap (over_storage s) (sym (config_init-off w off))
