-- ===== src/Config/Encode/Preserved.antt =====
-- The preserved records are emitted byte for byte where they fit, and too many are an error.
use config_wp.Base.{
  ℕ, zero, suc, ◌+◌, ◌^◌, ◌≤◌, ◌<◌, ◌≡◌, refl, ap, sym, ◌∙◌, Option, some, List, [], ◌∷◌, ◌++◌,
  length, All, drop, arith, append-nil, append_assoc, length-append, drop-append, drop-drop, ltb,
  le→ltb, lt→ltb, Bool-cases, inl, inr, ltb→lt, ltb→le,
}
use config_wp.Tlv.{TlvWriter, record_bytes, tlv_writer_emit_raw, read_u16_le}
use config_wp.Tlv.Status.{tlv_ok, err_no_space}
use config_wp.Tlv.Writer.{
  Holds, emit_raw-Holds, emit_raw_no_space, length-record_bytes, length-of-record_bytes,
}
use config_wp.Config.State.{config_ok, err_too_large}
use config_wp.Config.Encode.{Emitted, emit_unknown_loop}
use config_wp.Config.Stream.{Entry, IsEntry, stream}

pub record EmitsSome (r : Option Emitted) (w : TlvWriter) (s t : List ℕ) : Type 0 where
  pub writer : TlvWriter
  pub result : r ≡ some (config_ok, writer)
  pub holds : Holds writer (s ++ t)
  pub capacity : writer.capacity ≡ w.capacity

-- A record takes four bytes at least.
pub length-le-stream : (us : List Entry) → length us ≤ length (stream us)
length-le-stream [] = omega arith
length-le-stream ((tag, v) ∷ us) = omega (
  arith,
  length-append (record_bytes tag v) (stream us),
  length-record_bytes tag v,
  length-le-stream us,
)

-- A record and more at `cursor` in the stash.
module _ (unknown : List ℕ) (cursor tag : ℕ) (v rest : List ℕ)
    (at : drop cursor unknown ≡ record_bytes tag v ++ rest) (short : length v < 2 ^ 16) where
  stashed_length : read_u16_le (drop (cursor + 2) unknown) ≡ some (length v)
  stashed_length =
      ap read_u16_le (sym (drop-drop 2 cursor (cursor + 2) unknown refl) ∙ ap (drop 2) at)
      ∙ length-of-record_bytes tag v rest short

  stashed_rest : drop (cursor + (4 + length v)) unknown ≡ rest
  stashed_rest =
      sym (drop-drop (4 + length v) cursor (cursor + (4 + length v)) unknown refl)
      ∙ ap (drop (4 + length v)) at
      ∙ drop-append (4 + length v) (record_bytes tag v) rest (sym (length-record_bytes tag v))

  round :
      (fuel used : ℕ) (w : TlvWriter)
      → cursor + (4 + length v) ≤ used
      → (v' : TlvWriter)
      → tlv_writer_emit_raw w (some (record_bytes tag v ++ rest)) (4 + length v) ≡ some (tlv_ok, v')
      → emit_unknown_loop (suc fuel) unknown used cursor w
        ≡ emit_unknown_loop fuel unknown used (cursor + (4 + length v)) v'
  unfolding emit_unknown_loop
  round fuel used w inside v' emits = rw (
    lt→ltb cursor used (omega arith),
    le→ltb (cursor + 4) used (omega arith),
    stashed_length,
    le→ltb (cursor + (4 + length v)) used inside,
    at,
    emits,
    emit_unknown_loop,
  )

  round_full :
      (fuel used : ℕ) (w : TlvWriter)
      → cursor + (4 + length v) ≤ used
      → tlv_writer_emit_raw w (some (record_bytes tag v ++ rest)) (4 + length v)
        ≡ some (err_no_space, w)
      → emit_unknown_loop (suc fuel) unknown used cursor w ≡ some (err_too_large, w)
  unfolding emit_unknown_loop
  round_full fuel used w inside emits = rw (
    lt→ltb cursor used (omega arith),
    le→ltb (cursor + 4) used (omega arith),
    stashed_length,
    le→ltb (cursor + (4 + length v)) used inside,
    at,
    emits,
    emit_unknown_loop,
  )

module _ (unknown p : List ℕ) (used : ℕ) where
  pub unknown_loop-EmitsSome :
      (us : List Entry) (fuel cursor : ℕ) (w : TlvWriter) (s : List ℕ)
      → length us < fuel
      → drop cursor unknown ≡ stream us ++ p
      → cursor + length (stream us) ≡ used
      → All IsEntry us
      → Holds w s
      → length s + length (stream us) ≤ w.capacity
      → EmitsSome (emit_unknown_loop fuel unknown used cursor w) w s (stream us)
  unknown_loop-EmitsSome us zero cursor w s enough at inside entries h room = absurd (omega arith)
  unknown_loop-EmitsSome [] (suc fuel) cursor w s enough at inside entries h room = record {
    writer = w;
    result = unfold emit_unknown_loop in rw (le→ltb used cursor (omega arith));
    holds = rw append-nil h;
    capacity = refl;
  }
  unknown_loop-EmitsSome ((tag, v) ∷ us) (suc fuel) cursor w s enough at inside entries h room =
      let at' = at ∙ append_assoc (record_bytes tag v) (stream us) p in
      let whole = length-append (record_bytes tag v) (stream us) in
      let size = length-record_bytes tag v in
      let (w', emits, holds, capacity) =
        emit_raw-Holds w s tag v (stream us ++ p) h entries.0.1 (omega (arith, h.used)) in
      let next =
        unknown_loop-EmitsSome us fuel (cursor + (4 + length v)) w' (s ++ record_bytes tag v)
          (omega arith) (stashed_rest unknown cursor tag v (stream us ++ p) at' entries.0.1)
          (omega arith) entries.1 holds (omega (arith, length-append s (record_bytes tag v))) in
      record {
        writer = next.writer;
        result =
            round unknown cursor tag v (stream us ++ p) at' entries.0.1 fuel used w (omega arith) w'
              emits
            ∙ next.result;
        holds = rw (← append_assoc s (record_bytes tag v) (stream us)) next.holds;
        capacity = next.capacity ∙ capacity;
      }

  -- Where they do not all fit, the result is the error of a configuration that is too large.
  pub unknown_loop_too_large :
      (us : List Entry) (fuel cursor : ℕ) (w : TlvWriter) (s : List ℕ)
      → length us < fuel
      → drop cursor unknown ≡ stream us ++ p
      → cursor + length (stream us) ≡ used
      → All IsEntry us
      → Holds w s
      → 0 < w.capacity
      → w.capacity < length s + length (stream us)
      → (v : TlvWriter) × (emit_unknown_loop fuel unknown used cursor w ≡ some (err_too_large, v))
  unknown_loop_too_large us zero cursor w s enough at inside entries h pos full =
      absurd (omega arith)
  unknown_loop_too_large [] (suc fuel) cursor w s enough at inside entries h pos full =
      absurd (omega (arith, h.used, h.fits))
  unknown_loop_too_large ((tag, v) ∷ us) (suc fuel) cursor w s enough at inside entries h pos full =
      let at' = at ∙ append_assoc (record_bytes tag v) (stream us) p in
      let whole = length-append (record_bytes tag v) (stream us) in
      let size = length-record_bytes tag v in
      elim (Bool-cases (ltb w.capacity (w.used + (4 + length v)))) [
        | inl no_room ↦ (
          w,
          round_full unknown cursor tag v (stream us ++ p) at' entries.0.1 fuel used w (omega arith)
              (emit_raw_no_space w s tag v (stream us ++ p) h pos entries.0.1
                (ltb→lt w.capacity (w.used + (4 + length v)) no_room)),
        )
        | inr has_room ↦
            let (w', emits, holds, capacity) =
              emit_raw-Holds w s tag v (stream us ++ p) h entries.0.1
                (ltb→le w.capacity (w.used + (4 + length v)) has_room) in
            let (x, result) =
              unknown_loop_too_large us fuel (cursor + (4 + length v)) w' (s ++ record_bytes tag v)
                (omega arith) (stashed_rest unknown cursor tag v (stream us ++ p) at' entries.0.1)
                (omega arith) entries.1 holds (omega arith)
                (omega (arith, length-append s (record_bytes tag v))) in
            (
              x,
              round unknown cursor tag v (stream us ++ p) at' entries.0.1 fuel used w (omega arith)
                    w' emits
                  ∙ result,
            )
      ]
