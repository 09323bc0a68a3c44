-- ===== src/Config/Session.antt =====
-- A session of the manager: setter calls, a save, and the next boot.
use config_wp.Base.{
  ℕ, ◌+◌, ◌≤◌, ◌≡◌, refl, ap, ap₂, sym, ◌∙◌, subst, true, some, List, length, take, All,
  All-replicate, length-replicate, arith,
}
use config_wp.Types.Wire.{IsWireDi, IsWireDo, IsWireTc, IsWireAi, IsWireAo, IsWirePcnt, IsWirePwm}
use config_wp.Slot.{slot_payload_max_bytes}
use config_wp.Slot.Boot.{CanCommit}
use config_wp.Config.State.{Config, World, config_ok}
use config_wp.Config.Defaults.{
  default_cache, di_default, do_default, tc_default, ai_default, ao_default, pcnt_default,
  pwm_default,
}
use config_wp.Config.Validate.{
  name_is_terminated, validate_di, validate_do, validate_tc, validate_ai, validate_ao,
  validate_pcnt, validate_pwm, validate_system,
}
use config_wp.Config.Stash.{IsStash}
use config_wp.Config.Stream.{Entry, stream}
use config_wp.Config.Lifecycle.{config_init, config_deinit, config_save}
use config_wp.Config.Boot.{IsRunning}
use config_wp.Config.FirstBoot.{
  di_default-IsWire, do_default-IsWire, tc_default-IsWire, ai_default-IsWire, ao_default-IsWire,
  pcnt_default-IsWire, pwm_default-IsWire, system_default-IsWire,
}
use config_wp.Config.Persist.{init-save}
use config_wp.Config.Calls.{SetCall, run_calls, IsTyped, IsValidCache}
use config_wp.Config.Calls.Keeps.{calls-Keeps, valid-IsWireCache}

-- The factory defaults are full arrays of records that are in the ranges of their C types and that
-- the validators of the setters accept.
pub default-IsValidCache : IsValidCache default_cache
unfolding default_cache name_is_terminated validate_di validate_do validate_tc validate_ai
    validate_ao validate_pcnt validate_pwm validate_system
default-IsValidCache = (
  (
    length-replicate 16 di_default,
    All-replicate (λ r. IsWireDi r × (validate_di r ≡ true)) 16 di_default
        (di_default-IsWire, refl),
  ),
  (
    length-replicate 16 do_default,
    All-replicate (λ r. IsWireDo r × (validate_do r ≡ true)) 16 do_default
        (do_default-IsWire, refl),
  ),
  (
    length-replicate 4 tc_default,
    All-replicate (λ r. IsWireTc r × (validate_tc r ≡ true)) 4 tc_default (tc_default-IsWire, refl),
  ),
  (
    length-replicate 8 ai_default,
    All-replicate (λ r. IsWireAi r × (validate_ai r ≡ true)) 8 ai_default (ai_default-IsWire, refl),
  ),
  (
    length-replicate 4 ao_default,
    All-replicate (λ r. IsWireAo r × (validate_ao r ≡ true)) 4 ao_default (ao_default-IsWire, refl),
  ),
  (
    length-replicate 4 pcnt_default,
    All-replicate (λ r. IsWirePcnt r × (validate_pcnt r ≡ true)) 4 pcnt_default
        (pcnt_default-IsWire, refl),
  ),
  (
    length-replicate 4 pwm_default,
    All-replicate (λ r. IsWirePwm r × (validate_pwm r ≡ true)) 4 pwm_default
        (pwm_default-IsWire, refl),
  ),
  system_default-IsWire,
  refl,
)

kept-IsStash :
    (c d : Config) (us : List Entry)
    → d.unknown ≡ c.unknown
    → d.unknown_used ≡ c.unknown_used
    → IsStash c us
    → IsStash d us
kept-IsStash c d us u n h = record {
  size = ap (λ (m : List ℕ). length m) u ∙ h.size;
  used = n ∙ h.used;
  fits = omega (arith, n, h.fits);
  held = ap₂ take n u ∙ h.held;
  entries = h.entries;
  unknown = h.unknown;
}

module _ (w : World) (us : List Entry) (calls : List SetCall) where
  after : World
  after = record w { config = run_calls calls w.config }

  after-IsRunning :
      IsRunning w us → IsValidCache w.config.cache → All IsTyped calls → IsRunning after us
  unfolding after
  after-IsRunning k valid typed =
      let (valid', u, n, b, on) = calls-Keeps calls w.config typed valid in
      record {
        initialised = on ∙ k.initialised;
        table = k.table;
        saveable = record {
          wire = valid-IsWireCache (run_calls calls w.config).cache valid';
          stash = kept-IsStash w.config (run_calls calls w.config) us u n k.saveable.stash;
          blob_size = ap (λ (m : List ℕ). length m) b ∙ k.saveable.blob_size;
        };
      }

  -- In a running manager with a valid cache, after any sequence of calls of the eight setters, at
  -- any indices, with null pointers or records in the ranges of their C types, with a name that
  -- ends in a zero byte and enums below 256, with storage in which a slot is active with a
  -- sequence number left, or no header is sane, and preserved records that fit beside the cache:
  -- config_save returns CONFIG_OK, config_init after a config_deinit returns CONFIG_OK with the
  -- cache that the calls left, and every record in it is one that its validator accepts.
  pub init-calls :
      IsRunning w us
      → IsValidCache w.config.cache
      → All IsTyped calls
      → CanCommit w.crc.table w.storage
      → 1697 + length (stream us) ≤ slot_payload_max_bytes
      → (t : World) × (u : World) × (config_save (record w { config = run_calls calls w.config })
          ≡ some (config_ok, t))
        × (config_init (config_deinit t) true ≡ some (config_ok, u))
        × (u.config.cache ≡ (run_calls calls w.config).cache)
        × IsValidCache u.config.cache
        × IsRunning u us
  unfolding after
  init-calls k valid typed can room =
      let (t, u, saves, starts, same, running) =
        init-save after us (after-IsRunning k valid typed) can room in
      (
        t,
        u,
        saves,
        starts,
        same,
        subst IsValidCache (sym same) (calls-Keeps calls w.config typed valid).0,
        running,
      )
