-- ===== src/Config/Boot.antt =====
-- config_init: on the storage of a saved blob, on blank storage, and on any storage.
use config_wp.Base.{
  ℕ, ◌+◌, ◌≤◌, ◌≡◌, refl, ap, sym, ◌∙◌, subst, Bool, true, false, Option, some, if◌then◌else◌, List,
  [], ◌++◌, length, drop, All, arith, All-append,
}
use config_wp.Base.Splice.{splice, length-splice}
use config_wp.Crc32.{crc32_init}
use config_wp.Slot.{slot_pick_active, Picked, slot_payload_max_bytes}
use config_wp.Slot.Boot.{Boots}
use config_wp.Config.State.{Cache, Config, ConfigStatus, World, config_ok, unknown_buf_bytes}
use config_wp.Config.Defaults.{default_cache, load_defaults_locked}
use config_wp.Config.Decode.{decode_blob_locked}
use config_wp.Config.Decode.Replay.{Replay-append, blob-Replay}
use config_wp.Config.Decode.Cache.{IsFull, cache-Replay, cache-IsEntry, unknown-Replay}
use config_wp.Config.Encode.Blob.{IsSaveable}
use config_wp.Config.Stash.{IsStash, IsUnknown}
use config_wp.Config.Stream.{Entry, IsEntry, IsWireCache, stream, cache_entries}
use config_wp.Config.Lifecycle.{config_init, finish_init, load_picked}

-- A manager between init and deinit: the table is built, and its state can be saved.
pub record IsRunning (w : World) (us : List Entry) : Type 0 where
  pub initialised : w.config.initialised ≡ true
  pub table : w.crc ≡ crc32_init w.crc
  pub saveable : IsSaveable w.config us

module _ (v : Cache) (us : List Entry) (wire : IsWireCache v) (entries : All IsEntry us)
    (unknown : All IsUnknown us) (fits : length (stream us) ≤ unknown_buf_bytes) where
  -- Decoding a saved blob, whatever the cache was and whatever follows the blob in the buffer.
  decode-blob_entries :
      (c : Config) (p : List ℕ)
      → IsFull c.cache
      → IsStash c []
      → (e : Config) × (decode_blob_locked c
            (stream (cache_entries v ++ us) ++ p)
            (length (stream (cache_entries v ++ us)))
          ≡ some (config_ok, e))
        × (e.cache ≡ v)
        × (e.blob_buf ≡ c.blob_buf)
        × IsStash e us
  decode-blob_entries c p full empty =
      let d : Config = record c { cache = v } in
      let none_kept : IsStash d [] = record {
        size = empty.size;
        used = empty.used;
        fits = empty.fits;
        held = empty.held;
        entries = tt;
        unknown = tt;
      } in
      let (e, run, held, same) = unknown-Replay us [] d none_kept entries unknown fits in
      (
        e,
        blob-Replay (cache_entries v ++ us) c e p
            (All-append IsEntry (cache_entries v) us (cache-IsEntry c v full wire) entries)
            (Replay-append (cache_entries v) us c d e (cache-Replay c v full wire) run),
        same.0,
        same.1,
        held,
      )

pub default-IsFull : IsFull default_cache
unfolding default_cache
default-IsFull = record {
  di = refl;
  do_ = refl;
  tc = refl;
  ai = refl;
  ao = refl;
  pcnt = refl;
  pwm = refl;
}

abbrev pub load : World → Picked → Option (ConfigStatus × World)
load w k =
    finish_init (record w { crc = crc32_init w.crc })
      (load_picked (load_defaults_locked w.config) k)

pub config_init-off :
    (w : World)
    → w.config.initialised ≡ false
    → config_init w true
      ≡ load w (slot_pick_active (crc32_init w.crc).table w.storage true slot_payload_max_bytes)
unfolding config_init
config_init-off w off =
    ap
      (λ (b : Bool).
        if b
        then some (config_ok, w)
        else load w
            (slot_pick_active (crc32_init w.crc).table w.storage true slot_payload_max_bytes))
      off

-- The end of config_init, with the state that the decoding left.
abbrev pub booted : World → Config → World
booted w e = record w { config = record e { initialised = true }; crc = crc32_init w.crc }

pub booted-IsRunning :
    (w : World) (e : Config) (v : Cache) (us : List Entry)
    → IsWireCache v
    → e.cache ≡ v
    → IsStash e us
    → length e.blob_buf ≡ slot_payload_max_bytes
    → IsRunning (booted w e) us
unfolding crc32_init
booted-IsRunning w e v us wire same held size = record {
  initialised = refl;
  table = refl;
  saveable = record {
    wire = subst IsWireCache (sym same) wire;
    stash = record {
      size = held.size;
      used = held.used;
      fits = held.fits;
      held = held.held;
      entries = held.entries;
      unknown = held.unknown;
    };
    blob_size = size;
  };
}

module _ (w : World) (v : Cache) (us : List Entry) (wire : IsWireCache v) (entries : All IsEntry us)
    (unknown : All IsUnknown us) (fits : length (stream us) ≤ unknown_buf_bytes)
    (off : w.config.initialised ≡ false) (size : length w.config.unknown ≡ unknown_buf_bytes)
    (blob_size : length w.config.blob_buf ≡ slot_payload_max_bytes) where
  -- An init that finds a saved blob in the storage.
  pub init-blob_entries :
      Boots (crc32_init w.crc).table w.storage (stream (cache_entries v ++ us))
      → length (stream (cache_entries v ++ us)) ≤ slot_payload_max_bytes
      → (u : World) × (config_init w true ≡ some (config_ok, u))
        × (u.config.cache ≡ v)
        × (u.storage ≡ w.storage)
        × IsRunning u us
  unfolding load_defaults_locked splice
  init-blob_entries b short =
      let blob = stream (cache_entries v ++ us) in
      let c = record (load_defaults_locked w.config) {
        blob_buf = splice 0 blob w.config.blob_buf;
      } in
      let empty : IsStash c [] = record {
        size = size;
        used = refl;
        fits = omega arith;
        held = refl;
        entries = tt;
        unknown = tt;
      } in
      let (e, decodes, same, buffer, held) =
        decode-blob_entries v us wire entries unknown fits c
          (drop (0 + length blob) w.config.blob_buf) default-IsFull empty in
      (
        booted w e,
        config_init-off w off
            ∙ ap (load w) b.boot
            ∙ ap (finish_init (record w { crc = crc32_init w.crc })) decodes,
        same,
        refl,
        booted-IsRunning w e v us wire same held (
            ap (λ (m : List ℕ). length m) buffer
            ∙ length-splice 0 blob w.config.blob_buf (omega arith)
            ∙ blob_size),
      )
