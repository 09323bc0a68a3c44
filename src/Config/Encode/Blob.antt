-- ===== src/Config/Encode/Blob.antt =====
-- encode_cache_locked as a whole: the blob is the stream of the cache's records and of the
-- preserved ones, or the error that they are too large.
use config_wp.Base.{
  ℕ, ◌+◌, ◌≤◌, ◌<◌, ◌≡◌, ap, sym, ◌∙◌, Option, some, List, ◌++◌, length, take, drop, arith,
  take-append-drop,
}
use config_wp.Tlv.{TlvWriter, tlv_writer_init}
use config_wp.Tlv.Writer.{init-Holds}
use config_wp.Slot.{slot_payload_max_bytes}
use config_wp.Config.State.{Config, config_ok, err_too_large}
use config_wp.Config.Encode.{Emitted, emit_unknown, encode_cache_locked, buffer_or, finish_blob}
use config_wp.Config.Encode.CacheStream.{emit_cache-Emits}
use config_wp.Config.Encode.Parts.{length-cache_stream}
use config_wp.Config.Encode.Preserved.{
  unknown_loop-EmitsSome, unknown_loop_too_large, length-le-stream,
}
use config_wp.Config.Stash.{IsStash}
use config_wp.Config.Stream.{Entry, stream, cache_entries, IsWireCache, stream-append}

-- The records of a blob: those of the cache, then the preserved ones.
abbrev pub blob_entries : Config → List Entry → List Entry
blob_entries c us = cache_entries c.cache ++ us

-- A state that can be saved: full arrays of records in range, and a stash of whole records.
pub record IsSaveable (c : Config) (us : List Entry) : Type 0 where
  pub wire : IsWireCache c.cache
  pub stash : IsStash c us
  pub blob_size : length c.blob_buf ≡ slot_payload_max_bytes

abbrev with_blob : Config → List ℕ → Config
with_blob c mem = record c { blob_buf = mem }

finish_ok :
    (c : Config) (w : TlvWriter) (mem : List ℕ)
    → w.buf ≡ some mem
    → finish_blob c (some (config_ok, w)) ≡ some (config_ok, with_blob c mem, w.used)
finish_ok c w mem e =
    ap (λ (b : Option (List ℕ)). some (config_ok, with_blob c (buffer_or c.blob_buf b), w.used)) e

-- The stash begins with its records.
stash_at :
    (c : Config) (us : List Entry)
    → IsStash c us
    → drop 0 c.unknown ≡ stream us ++ drop c.unknown_used c.unknown
stash_at c us h =
    sym (take-append-drop c.unknown_used c.unknown)
    ∙ ap (λ (s : List ℕ). s ++ drop c.unknown_used c.unknown) h.held

module _ (c : Config) (us : List Entry) (h : IsSaveable c us) where
  start : TlvWriter
  start = tlv_writer_init (some c.blob_buf) slot_payload_max_bytes

  -- For a state with full arrays of records in range and a stash of whole records, whose blob fits
  -- a slot, encode_cache_locked returns CONFIG_OK and its bytes are the stream of the records of
  -- the cache, in the order of the tags, followed by the preserved unknown records verbatim.
  pub encode-stream :
      1697 + length (stream us) ≤ slot_payload_max_bytes
      → (mem : List ℕ) × (n : ℕ) × (encode_cache_locked c slot_payload_max_bytes
          ≡ some (config_ok, record c { blob_buf = mem }, n))
        × (length mem ≡ slot_payload_max_bytes)
        × (n ≡ length (stream (blob_entries c us)))
        × (take n mem ≡ stream (blob_entries c us))
  unfolding encode_cache_locked start
  encode-stream room =
      let first =
        emit_cache-Emits c.cache h.wire start
          (init-Holds c.blob_buf slot_payload_max_bytes h.blob_size) (omega arith) in
      let second =
        unknown_loop-EmitsSome c.unknown (drop c.unknown_used c.unknown) c.unknown_used us
          (c.unknown_used + 1) 0 first.writer (stream (cache_entries c.cache))
          (omega (arith, h.stash.used, length-le-stream us)) (stash_at c us h.stash)
          (omega (arith, h.stash.used)) h.stash.entries first.holds
          (omega (arith, first.capacity, length-cache_stream c.cache h.wire)) in
      let whole = stream-append (cache_entries c.cache) us in
      (
        second.holds.mem,
        second.writer.used,
        ap (λ (e : Emitted). finish_blob c (emit_unknown c e)) first.result
            ∙ ap (finish_blob c) second.result
            ∙ finish_ok c second.writer second.holds.mem second.holds.buf,
        second.holds.size ∙ second.capacity ∙ first.capacity,
        second.holds.used ∙ ap (λ (s : List ℕ). length s) (sym whole),
        second.holds.written ∙ sym whole,
      )

  -- For a state with full arrays of records in range and a stash of whole records,
  -- encode_cache_locked returns CONFIG_ERR_TOO_LARGE if the 1697 bytes of the cache's records and
  -- the preserved records together exceed a slot's 2028 bytes.
  pub encode_too_large :
      slot_payload_max_bytes < 1697 + length (stream us)
      → (d : Config) × (n : ℕ) × (encode_cache_locked c slot_payload_max_bytes
          ≡ some (err_too_large, d, n))
  unfolding encode_cache_locked start
  encode_too_large full =
      let first =
        emit_cache-Emits c.cache h.wire start
          (init-Holds c.blob_buf slot_payload_max_bytes h.blob_size) (omega arith) in
      let (v, result) =
        unknown_loop_too_large c.unknown (drop c.unknown_used c.unknown) c.unknown_used us
          (c.unknown_used + 1) 0 first.writer (stream (cache_entries c.cache))
          (omega (arith, h.stash.used, length-le-stream us)) (stash_at c us h.stash)
          (omega (arith, h.stash.used)) h.stash.entries first.holds (omega (arith, first.capacity))
          (omega (arith, first.capacity, length-cache_stream c.cache h.wire)) in
      (
        with_blob c (buffer_or c.blob_buf v.buf),
        v.used,
        ap (λ (e : Emitted). finish_blob c (emit_unknown c e)) first.result
            ∙ ap (finish_blob c) result,
      )
