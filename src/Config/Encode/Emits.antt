-- ===== src/Config/Encode/Emits.antt =====
-- emit_record_locked and the loops over the arrays append exactly their records to the stream.
use config_wp.Base.{
  ℕ, ◌+◌, ◌≤◌, ◌≡◌, refl, ap, sym, ◌∙◌, List, [], ◌∷◌, ◌++◌, length, All, some, arith, append-nil,
  append_assoc, length-append,
}
use config_wp.Tlv.{TlvWriter, tlv_writer_emit, record_bytes}
use config_wp.Tlv.Writer.{Holds, emit-Holds, length-record_bytes}
use config_wp.Codec.Tag.{config_codec_make_tag}
use config_wp.Codec.Interface.{LawfulCodec}
use config_wp.Config.State.{config_ok}
use config_wp.Config.Encode.{
  Emitted, emit_record_locked, emit_array, and_then, emit_status, value_buf_bytes,
}
use config_wp.Config.Stream.{stream, array_entries}

-- From the writer `w` that holds `s`, the result `r` is a success that has appended `t`.
pub record Emits (r : Emitted) (w : TlvWriter) (s t : List ℕ) : Type 0 where
  pub writer : TlvWriter
  pub result : r ≡ (config_ok, writer)
  pub holds : Holds writer (s ++ t)
  pub capacity : writer.capacity ≡ w.capacity

pub and_then-Emits :
    (r : Emitted) (f : TlvWriter → Emitted) (w : TlvWriter) (s t u : List ℕ)
    → Emits r w s t
    → ((v : TlvWriter) → Holds v (s ++ t) → v.capacity ≡ w.capacity → Emits (f v) v (s ++ t) u)
    → Emits (and_then r f) w s (t ++ u)
and_then-Emits r f w s t u h k =
    let next = k h.writer h.holds h.capacity in
    record {
      writer = next.writer;
      result = ap (λ (x : Emitted). and_then x f) h.result ∙ next.result;
      holds = rw (← append_assoc s t u) next.holds;
      capacity = next.capacity ∙ h.capacity;
    }

module _ {A : Type 0} (k : LawfulCodec A) (domain : ℕ) (small : k.wire_size ≤ value_buf_bytes) where
  pub emit_record-Emits :
      (w : TlvWriter) (s : List ℕ) (i : ℕ) (r : A)
      → Holds w s
      → k.IsWire r
      → length s + (4 + k.wire_size) ≤ w.capacity
      → Emits
          (emit_record_locked w domain i k.encode r)
          w
          s
          (record_bytes (config_codec_make_tag domain i) (k.bytes r))
  unfolding emit_record_locked
  emit_record-Emits w s i r h wire room =
      let size = k.length-bytes r wire in
      let (v, emits, holds, capacity) =
        emit-Holds w s (config_codec_make_tag domain i) (k.bytes r) h (omega arith)
          (omega (arith, h.used)) in
      record {
        writer = v;
        result =
            rw (k.encode_ok r value_buf_bytes small, emit_record_locked)
              (ap
                  (λ (n : ℕ).
                    emit_status
                      (tlv_writer_emit w (config_codec_make_tag domain i) (some (k.bytes r)) n))
                  (sym size)
                ∙ ap emit_status emits);
        holds = holds;
        capacity = capacity;
      }

  pub emit_array-Emits :
      (rs : List A) (w : TlvWriter) (s : List ℕ) (i : ℕ)
      → Holds w s
      → All k.IsWire rs
      → length s + length (stream (array_entries domain k.bytes rs i)) ≤ w.capacity
      → Emits (emit_array domain k.encode rs i w) w s (stream (array_entries domain k.bytes rs i))
  unfolding emit_array
  emit_array-Emits [] w s i h wire room = record {
    writer = w;
    result = refl;
    holds = rw append-nil h;
    capacity = refl;
  }
  emit_array-Emits (r ∷ rs) w s i h wire room =
      let tag = config_codec_make_tag domain i in
      let size = length-record_bytes tag (k.bytes r) in
      let whole =
        length-append (record_bytes tag (k.bytes r))
          (stream (array_entries domain k.bytes rs (i + 1))) in
      and_then-Emits (emit_record_locked w domain i k.encode r)
        (emit_array domain k.encode rs (i + 1)) w s (record_bytes tag (k.bytes r))
        (stream (array_entries domain k.bytes rs (i + 1)))
        (emit_record-Emits w s i r h wire.0 (omega (arith, k.length-bytes r wire.0)))
        (λ v hv same.
          emit_array-Emits rs v (s ++ record_bytes tag (k.bytes r)) (i + 1) hv wire.1
            (omega (arith, length-append s (record_bytes tag (k.bytes r)))))
