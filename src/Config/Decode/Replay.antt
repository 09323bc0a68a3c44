-- ===== src/Config/Decode/Replay.antt =====
-- Decoding a stream of records one after the other: decode_blob_locked over a stream that it knows.
use config_wp.Base.{
  ℕ, zero, suc, ◌+◌, ◌≤◌, ◌<◌, ◌≡◌, refl, ap, ◌∙◌, some, List, [], ◌∷◌, ◌++◌, length, All, arith,
  append_assoc, length-append,
}
use config_wp.Tlv.{TlvIter, record_bytes, tlv_iter_init}
use config_wp.Tlv.Writer.{length-record_bytes}
use config_wp.Tlv.Iter.{At, behind, next-record, behind-At, next_end}
use config_wp.Config.State.{Config, config_ok}
use config_wp.Config.Decode.{decode_into_record_locked, decode_blob_loop, decode_blob_locked}
use config_wp.Config.Stream.{Entry, IsEntry, stream}

-- The records take the state `c` to `e`, each being accepted.
abbrev pub Replay : Config → List Entry → Config → Type 0
Replay c [] e = c ≡ e
Replay c ((tag, v) ∷ es) e =
    (d : Config) × (decode_into_record_locked c tag v (length v) ≡ some (config_ok, d))
    × Replay d es e

pub Replay-append :
    (es fs : List Entry) (c d e : Config) → Replay c es d → Replay d fs e → Replay c (es ++ fs) e
Replay-append [] fs c d e same rest = rw same rest
Replay-append ((tag, v) ∷ es) fs c d e (c', accepted, first) rest =
    (c', accepted, Replay-append es fs c' d e first rest)

-- The loop over a stream of records runs them all and ends well.
loop-Replay :
    (es : List Entry) (c e : Config) (it : TlvIter) (fuel : ℕ) (p : List ℕ)
    → At it (stream es ++ p)
    → it.cursor + length (stream es) ≡ it.buf_len
    → All IsEntry es
    → length es < fuel
    → Replay c es e
    → decode_blob_loop fuel it c ≡ some (config_ok, e)
unfolding decode_blob_loop
loop-Replay es c e it zero p at whole ok enough run = absurd (omega arith)
loop-Replay [] c e it (suc fuel) p at whole ok enough run =
    rw (next_end it (omega arith), decode_blob_loop) (ap (λ (s : Config). some (config_ok, s)) run)
loop-Replay ((tag, v) ∷ es) c e it (suc fuel) p at whole ok enough (d, accepted, run) =
    let here = at ∙ append_assoc (record_bytes tag v) (stream es) p in
    rw
      (
        next-record it tag v (stream es ++ p) here ok.0.0 ok.0.1 (
            omega
              (arith, length-append (record_bytes tag v) (stream es), length-record_bytes tag v)),
        decode_blob_loop,
        accepted,
      )
      (loop-Replay es d e (behind it (length v)) fuel p
        (behind-At it tag v (stream es ++ p) here ok.0.0 ok.0.1)
        (omega (arith, length-append (record_bytes tag v) (stream es), length-record_bytes tag v))
        ok.1 (omega arith) run)

length-stream : (es : List Entry) → length es ≤ length (stream es)
length-stream [] = omega arith
length-stream ((tag, v) ∷ es) = omega (
  arith,
  length-append (record_bytes tag v) (stream es),
  length-record_bytes tag v,
  length-stream es,
)

-- A blob that begins with a stream of records, decoded to the end of the stream.
pub blob-Replay :
    (es : List Entry) (c e : Config) (p : List ℕ)
    → All IsEntry es
    → Replay c es e
    → decode_blob_locked c (stream es ++ p) (length (stream es)) ≡ some (config_ok, e)
unfolding decode_blob_locked
blob-Replay es c e p ok run =
    loop-Replay es c e (tlv_iter_init (stream es ++ p) (length (stream es)))
      (length (stream es) + 1) p refl (omega arith) ok (omega (arith, length-stream es)) run
