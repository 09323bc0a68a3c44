-- ===== src/Config/Persist.antt =====
-- What config_save wrote, config_init reads back: the manager, the codec, the TLV layer, the CRC
-- and the slots together.
use config_wp.Base.{
  ℕ, ◌+◌, ◌≤◌, ◌≡◌, refl, ap, sym, ◌∙◌, subst, Bool, true, not, false, some, if◌then◌else◌, List,
  length, All, arith, length-append,
}
use config_wp.Crc32.{Crc32}
use config_wp.Crc32.Bounds.{init-IsWord, IsWord}
use config_wp.Storage.{Storage}
use config_wp.Slot.{SlotStatus, slot_ok, slot_write, slot_payload_max_bytes}
use config_wp.Slot.Boot.{CanCommit, Boots, write-Boots, slot_write-take}
use config_wp.Config.State.{ConfigStatus, World, config_ok, err_not_initialised}
use config_wp.Config.Encode.{encode_cache_locked}
use config_wp.Config.Encode.Blob.{blob_entries, encode-stream}
use config_wp.Config.Encode.Parts.{length-cache_stream}
use config_wp.Config.Stream.{Entry, stream, stream-append, cache_entries}
use config_wp.Config.Boot.{IsRunning, init-blob_entries}
use config_wp.Config.Lifecycle.{
  config_init, config_deinit, config_save, save_encoded, write_blob, save_status, with_config,
}

config_save-on :
    (w : World)
    → w.config.initialised ≡ true
    → config_save w ≡ save_encoded w (encode_cache_locked w.config slot_payload_max_bytes)
unfolding config_save
config_save-on w on =
    ap
      (λ (b : Bool).
        if not b
        then some (err_not_initialised, w)
        else save_encoded w (encode_cache_locked w.config slot_payload_max_bytes))
      on

-- The state after the save, and after the deinit that follows.
abbrev saved : World → List ℕ → Storage → World
saved w mem s = record w { config = record w.config { blob_buf = mem }; storage = s }

abbrev stopped : World → World
stopped w = with_config w (record w.config { initialised = false; unknown_used = 0 })

config_deinit-on : (w : World) → w.config.initialised ≡ true → config_deinit w ≡ stopped w
unfolding config_deinit
config_deinit-on w on = ap (λ (b : Bool). if not b then w else stopped w) on

write_blob_ok :
    (w : World) (mem : List ℕ) (n : ℕ) (s : Storage)
    → slot_write w.crc.table w.storage (some mem) n ≡ (slot_ok, s)
    → write_blob w (record w.config { blob_buf = mem }) n ≡ (config_ok, saved w mem s)
write_blob_ok w mem n s e =
    ap
      (λ (r : SlotStatus × Storage).
        (save_status r.0, record w { config = record w.config { blob_buf = mem }; storage = r.1 }))
      e

module _ (w : World) (us : List Entry) (k : IsRunning w us) (can : CanCommit w.crc.table w.storage)
    (room : 1697 + length (stream us) ≤ slot_payload_max_bytes) where
  -- A save of a running manager succeeds, and its storage boots the blob.
  pub save-Boots :
      (mem : List ℕ) × (s : Storage) × (config_save w ≡ some (config_ok, saved w mem s))
      × (length mem ≡ slot_payload_max_bytes)
      × (length (stream (blob_entries w.config us)) ≤ slot_payload_max_bytes)
      × Boots w.crc.table s (stream (blob_entries w.config us))
  save-Boots =
      let v = w.config.cache in
      let blob = stream (blob_entries w.config us) in
      let (mem, n, encodes, size, n_is, holds) = encode-stream w.config us k.saveable room in
      let measured : length blob ≡ 1697 + length (stream us) = omega (
        arith,
        ap (λ (s : List ℕ). length s) (stream-append (cache_entries v) us),
        length-append (stream (cache_entries v)) (stream us),
        length-cache_stream v k.saveable.wire,
      ) in
      let (s, writes, boots) =
        write-Boots w.crc.table w.storage blob
          (subst (λ (c : Crc32). All IsWord c.table) (sym k.table) (init-IsWord w.crc)) can
          (omega arith) (omega arith) in
      (
        mem,
        s,
        config_save-on w k.initialised
            ∙ ap (save_encoded w) encodes
            ∙ ap (λ (r : ConfigStatus × World). some r)
                (write_blob_ok w mem n s (
                  slot_write-take w.crc.table w.storage mem n
                  ∙ ap (λ (b : List ℕ). slot_write w.crc.table w.storage (some b) n) holds
                  ∙ ap (slot_write w.crc.table w.storage (some blob)) n_is
                  ∙ writes)),
        size,
        omega arith,
        boots,
      )

  -- In a running manager (initialised, checksum table built, full arrays of records in the ranges
  -- of their C types, with a name that ends in a zero byte and enums below 256, a stash of whole
  -- records of unknown tags), with storage in which a slot is active or no header is sane, a
  -- sequence number left, and a blob that fits a slot, config_save returns CONFIG_OK, and
  -- config_init after a config_deinit returns CONFIG_OK with the same cache and the same preserved
  -- unknown records, running again.
  pub init-save :
      (t : World) × (u : World) × (config_save w ≡ some (config_ok, t))
      × (config_init (config_deinit t) true ≡ some (config_ok, u))
      × (u.config.cache ≡ w.config.cache)
      × IsRunning u us
  init-save =
      let (mem, s, saves, size, short, boots) = save-Boots in
      let t = saved w mem s in
      let stash = k.saveable.stash in
      let (u, starts, same, kept, running) =
        init-blob_entries (stopped t) w.config.cache us k.saveable.wire stash.entries stash.unknown
          (omega (arith, stash.used, stash.fits)) refl stash.size size
          (subst (λ (c : Crc32). Boots c.table s (stream (blob_entries w.config us))) k.table boots)
          short in
      (
        t,
        u,
        saves,
        ap (λ (z : World). config_init z true) (config_deinit-on t k.initialised) ∙ starts,
        same,
        running,
      )
