-- ===== src/Config/FirstBoot.antt =====
-- config_init on storage that holds nothing, and on storage with any contents.
use config_wp.Base.{
  All-replicate, ◌≡◌, ◌+◌, refl, ap, ◌∙◌, Bool, true, false, Option, some, none, [], length, drop,
  arith, if◌then◌else◌, length-append, Bool-cases, inl, inr,
}
use config_wp.Base.Splice.{splice}
use config_wp.Types.Wire.{
  IsName, IsWireDi, IsWireDo, IsWireTc, IsWireAi, IsWireAo, IsWirePcnt, IsWirePwm, IsWireSystem,
}
use config_wp.Crc32.{crc32_init}
use config_wp.Slot.{
  slot_pick_active, Picked, picked, none_picked, err_no_valid, slot_payload_max_bytes,
}
use config_wp.Slot.Boot.{IsBlank}
use config_wp.Slot.Blank.{pick-IsBlank}
use config_wp.Config.State.{Config, ConfigStatus, World, config_ok, unknown_buf_bytes}
use config_wp.Config.Defaults.{
  default_cache, load_defaults_locked, di_default, do_default, tc_default, ai_default, ao_default,
  pcnt_default, pwm_default, system_default, empty_name,
}
use config_wp.Config.Decode.Total.{decode_blob-Returns}
use config_wp.Config.Stash.{IsStash}
use config_wp.Config.Stream.{IsWireCache}
use config_wp.Config.Lifecycle.{config_init, load_picked, finish_init}
use config_wp.Config.Boot.{IsRunning, load, config_init-off, booted, booted-IsRunning}

empty_name-IsName : IsName empty_name
empty_name-IsName = record { full = refl; terminated = refl }

pub di_default-IsWire : IsWireDi di_default
di_default-IsWire = record {
  name = empty_name-IsName;
  id = omega arith;
  debounce_ms = omega arith;
  polarity = omega arith;
  fault_state = omega arith;
}

pub do_default-IsWire : IsWireDo do_default
do_default-IsWire = record {
  name = empty_name-IsName;
  id = omega arith;
  polarity = omega arith;
  fault_state = omega arith;
}

pub tc_default-IsWire : IsWireTc tc_default
tc_default-IsWire = record {
  name = empty_name-IsName;
  id = omega arith;
  tc_type = omega arith;
  unit = omega arith;
  filter_ms = omega arith;
  fault_state = omega arith;
  fault_value_c10 = omega arith;
}

pub ai_default-IsWire : IsWireAi ai_default
ai_default-IsWire = record {
  name = empty_name-IsName;
  id = omega arith;
  input_mode = omega arith;
  filter_ms = omega arith;
  scale_num = omega arith;
  scale_den = omega arith;
  offset = omega arith;
  fault_state = omega arith;
  fault_value = omega arith;
}

pub ao_default-IsWire : IsWireAo ao_default
ao_default-IsWire = record {
  name = empty_name-IsName;
  id = omega arith;
  output_mode = omega arith;
  slew_per_s = omega arith;
  scale_num = omega arith;
  scale_den = omega arith;
  offset = omega arith;
  fault_state = omega arith;
  fault_value = omega arith;
}

pub pcnt_default-IsWire : IsWirePcnt pcnt_default
pcnt_default-IsWire = record {
  name = empty_name-IsName;
  id = omega arith;
  mode = omega arith;
  edge = omega arith;
  limit = omega arith;
}

pub pwm_default-IsWire : IsWirePwm pwm_default
pwm_default-IsWire = record {
  name = empty_name-IsName;
  id = omega arith;
  period_us = omega arith;
  duty_permille = omega arith;
  fault_state = omega arith;
  fault_duty_permille = omega arith;
}

pub system_default-IsWire : IsWireSystem system_default
system_default-IsWire = record {
  canopen_node_id = omega arith;
  can_bitrate = omega arith;
  heartbeat_ms = omega arith;
  sync_window_us = omega arith;
  nmt_startup = omega arith;
  producer_emcy_cob_id = omega arith;
}

-- The factory defaults are records that the wire format holds.
default-IsWireCache : IsWireCache default_cache
unfolding default_cache
default-IsWireCache = record {
  di_count = refl;
  do_count = refl;
  tc_count = refl;
  ai_count = refl;
  ao_count = refl;
  pcnt_count = refl;
  pwm_count = refl;
  di = All-replicate IsWireDi 16 di_default di_default-IsWire;
  do_ = All-replicate IsWireDo 16 do_default do_default-IsWire;
  tc = All-replicate IsWireTc 4 tc_default tc_default-IsWire;
  ai = All-replicate IsWireAi 8 ai_default ai_default-IsWire;
  ao = All-replicate IsWireAo 4 ao_default ao_default-IsWire;
  pcnt = All-replicate IsWirePcnt 4 pcnt_default pcnt_default-IsWire;
  pwm = All-replicate IsWirePwm 4 pwm_default pwm_default-IsWire;
  system = system_default-IsWire;
}

defaults-IsStash :
    (c : Config) → length c.unknown ≡ unknown_buf_bytes → IsStash (load_defaults_locked c) []
unfolding load_defaults_locked
defaults-IsStash c size = record {
  size = size;
  used = refl;
  fits = omega arith;
  held = refl;
  entries = tt;
  unknown = tt;
}

-- On a manager that is not initialised, with buffers of the sizes that the program gives them and
-- storage that is set up and has no sane header, config_init returns CONFIG_OK with the factory
-- defaults as the cache, does not write the storage, and leaves a running manager that preserves
-- no records.
pub init-IsBlank :
    (w : World)
    → w.config.initialised ≡ false
    → length w.config.unknown ≡ unknown_buf_bytes
    → length w.config.blob_buf ≡ slot_payload_max_bytes
    → IsBlank w.storage
    → (u : World) × (config_init w true ≡ some (config_ok, u))
      × (u.config.cache ≡ default_cache)
      × (u.storage ≡ w.storage)
      × IsRunning u []
unfolding load_defaults_locked
init-IsBlank w off size blob_size blank = (
  booted w (load_defaults_locked w.config),
  config_init-off w off ∙ ap (load w) (pick-IsBlank (crc32_init w.crc).table w.storage blank),
  refl,
  refl,
  booted-IsRunning w (load_defaults_locked w.config) default_cache [] default-IsWireCache refl
      (defaults-IsStash w.config size) blob_size,
)

-- A call of init that returns, with the manager initialised.
abbrev Starts : Option (ConfigStatus × World) → Type 0
Starts o =
    (status : ConfigStatus) × (v : World) × (o ≡ some (status, v)) × (v.config.initialised ≡ true)

finish-Starts :
    (w : World) (o : Option (ConfigStatus × Config))
    → (r : ConfigStatus × Config) × (o ≡ some r)
    → Starts (finish_init w o)
finish-Starts w none (r, e) = absurd cc
finish-Starts w (some (status, c)) r = (status, _, refl, refl)

load_picked-Returns :
    (c : Config) (k : Picked) → (r : ConfigStatus × Config) × (load_picked c k ≡ some r)
unfolding splice
load_picked-Returns c (picked id payload) =
    decode_blob-Returns (record c { blob_buf = splice 0 payload c.blob_buf })
      (splice 0 payload c.blob_buf) (length payload)
      (omega (arith, length-append payload (drop (0 + length payload) c.blob_buf)))
load_picked-Returns c (none_picked err_no_valid) = (_, refl)
load_picked-Returns c (none_picked status) = (_, refl)

abbrev picked_by : World → Picked
picked_by w = slot_pick_active (crc32_init w.crc).table w.storage true slot_payload_max_bytes

-- Once the lock is created, config_init returns and leaves the manager initialised, whatever the
-- state and however corrupt the headers and payloads in the storage are.
pub init-Starts :
    (w : World)
    → (status : ConfigStatus) × (v : World) × (config_init w true ≡ some (status, v))
      × (v.config.initialised ≡ true)
unfolding config_init
init-Starts w = elim (Bool-cases w.config.initialised) [
  | inl on ↦ (
    config_ok,
    w,
    ap (λ (b : Bool). if b then some (config_ok, w) else load w (picked_by w)) on,
    on,
  )
  | inr off ↦
      let (status, v, starts, on) =
        finish-Starts (record w { crc = crc32_init w.crc })
          (load_picked (load_defaults_locked w.config) (picked_by w))
          (load_picked-Returns (load_defaults_locked w.config) (picked_by w)) in
      (status, v, config_init-off w off ∙ starts, on)
]
