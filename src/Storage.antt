-- ===== src/Storage.antt =====
-- The in-memory storage driver: src/drivers/storage.c. `size_t` has 64 bits.
pub mod Laws
use config_wp.Base.{
  ℕ, ◌+◌, ◌*◌, ◌%◌, ◌^◌, Bool, true, false, Option, none, some, List, length, take, replicate, ltb,
  not, ◌||◌, if◌then◌else◌,
}
use config_wp.Base.Splice.{splice, slice}

abbrev pub storage_bytes : ℕ
storage_bytes = 4 * 1024

pub data StorageStatus : Type 0 where
  storage_ok err_io err_range : StorageStatus

pub record Storage : Type 0 where
  pub backing : List ℕ
  pub initialised : Bool

unfoldable pub storage_init : Storage → StorageStatus × Storage
storage_init s = (storage_ok, record { backing = replicate storage_bytes 0xff; initialised = true })

abbrev pub out_of_range : ℕ → ℕ → Bool
out_of_range offset len = ltb storage_bytes ((offset + len) % 2 ^ 64)

-- The status, or the bytes that the read puts into the caller's buffer.
pub data StorageRead : Type 0 where
  read_ok : List ℕ → StorageRead
  read_err : StorageStatus → StorageRead

unfoldable pub storage_read : Storage → ℕ → Bool → ℕ → StorageRead
storage_read s offset has_buf len =
    if not s.initialised || not has_buf
    then read_err err_io
    else if out_of_range offset len
    then read_err err_range
    else read_ok (slice offset len s.backing)

abbrev pub write_bytes : Storage → ℕ → List ℕ → ℕ → StorageStatus × Storage
write_bytes s offset bytes len =
    if out_of_range offset len
    then (err_range, s)
    else (storage_ok, record s { backing = splice offset (take len bytes) s.backing })

unfoldable pub storage_write : Storage → ℕ → Option (List ℕ) → ℕ → StorageStatus × Storage
storage_write s offset none len = (err_io, s)
storage_write s offset (some bytes) len =
    if not s.initialised then (err_io, s) else write_bytes s offset bytes len

unfoldable pub storage_size : ℕ
storage_size = storage_bytes
