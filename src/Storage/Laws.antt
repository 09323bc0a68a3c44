-- ===== src/Storage/Laws.antt =====
-- Reads and writes of a driver that is set up.
use config_wp.Base.{
  ℕ, ◌+◌, ◌≤◌, ◌≡◌, ◌⊎◌, inl, inr, refl, ap, sym, ◌∙◌, true, some, List, length, take_all,
  length-replicate, arith,
}
use config_wp.Base.Splice.{
  splice, slice, slice-splice, slice-splice_below, slice-splice_above, length-splice,
}
use config_wp.Storage.{
  Storage, storage_bytes, storage_read, storage_write, storage_ok, read_ok, storage_init,
}

pub record IsReady (s : Storage) : Type 0 where
  pub initialised : s.initialised ≡ true
  pub size : length s.backing ≡ storage_bytes

abbrev pub stored : Storage → ℕ → List ℕ → Storage
stored s off bytes = record s { backing = splice off bytes s.backing }

pub read_in_range :
    (s : Storage) (off len : ℕ)
    → IsReady s
    → off + len ≤ storage_bytes
    → storage_read s off true len ≡ read_ok (slice off len s.backing)
unfolding storage_read
read_in_range s off len h fits = ground (arith, h.initialised)

pub write_in_range :
    (s : Storage) (off : ℕ) (bytes : List ℕ)
    → IsReady s
    → off + length bytes ≤ storage_bytes
    → storage_write s off (some bytes) (length bytes) ≡ (storage_ok, stored s off bytes)
unfolding storage_write
write_in_range s off bytes h fits = ground (arith, h.initialised, take_all (length bytes) bytes)

pub stored-IsReady :
    (s : Storage) (off : ℕ) (bytes : List ℕ)
    → IsReady s
    → off + length bytes ≤ storage_bytes
    → IsReady (stored s off bytes)
stored-IsReady s off bytes h fits = record {
  initialised = h.initialised;
  size = length-splice off bytes s.backing (omega (arith, h.size)) ∙ h.size;
}

-- A write that fits is read back, and every block that it does not touch reads as before.
pub write_effect :
    (s : Storage) (off : ℕ) (bytes : List ℕ)
    → IsReady s
    → off + length bytes ≤ storage_bytes
    → (storage_write s off (some bytes) (length bytes) ≡ (storage_ok, stored s off bytes))
      × (storage_read (stored s off bytes) off true (length bytes) ≡ read_ok bytes)
      × ((o n : ℕ)
          → o + n ≤ storage_bytes
          → (o + n ≤ off) ⊎ (off + length bytes ≤ o)
          → storage_read (stored s off bytes) o true n ≡ storage_read s o true n)
write_effect s off bytes h fits = (
  write_in_range s off bytes h fits,
  read_in_range (stored s off bytes) off (length bytes) ready fits
      ∙ ap read_ok (slice-splice off (length bytes) bytes s.backing (omega (arith, h.size)) refl),
  λ o n in_range apart.
      read_in_range (stored s off bytes) o n ready in_range
      ∙ ap read_ok (elsewhere o n apart)
      ∙ sym (read_in_range s o n h in_range),
)
  where
    ready : IsReady (stored s off bytes)
    ready = stored-IsReady s off bytes h fits

    elsewhere :
        (o n : ℕ)
        → (o + n ≤ off) ⊎ (off + length bytes ≤ o)
        → slice o n (splice off bytes s.backing) ≡ slice o n s.backing
    elsewhere o n (inl below) =
        slice-splice_below off o n bytes s.backing (omega (arith, h.size)) below
    elsewhere o n (inr above) =
        slice-splice_above off o n bytes s.backing (omega (arith, h.size)) above

-- With the driver set up, storage_write of a block within the storage returns STORAGE_OK,
-- storage_read gives the block back, and a block within the storage that lies entirely before or
-- behind it reads as it did.
pub read-write :
    (s : Storage) (off : ℕ) (bytes : List ℕ) (o n : ℕ)
    → IsReady s
    → off + length bytes ≤ storage_bytes
    → o + n ≤ storage_bytes
    → (o + n ≤ off) ⊎ (off + length bytes ≤ o)
    → (t : Storage) × (storage_write s off (some bytes) (length bytes) ≡ (storage_ok, t))
      × (storage_read t off true (length bytes) ≡ read_ok bytes)
      × (storage_read t o true n ≡ storage_read s o true n)
read-write s off bytes o n h fits in_range apart =
    let (writes, reads, others) = write_effect s off bytes h fits in
    (stored s off bytes, writes, reads, others o n in_range apart)

pub init-IsReady : (s : Storage) → IsReady (storage_init s).1
unfolding storage_init
init-IsReady s = record { initialised = refl; size = length-replicate {A = ℕ} storage_bytes 0xff }
