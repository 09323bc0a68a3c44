-- ===== src/Config/Decode/Bank.antt =====
-- The arrays of the cache, whichever the type: decoding all the records of one writes it whole.
use config_wp.Base.{
  ℕ, zero, suc, ◌+◌, ◌≤◌, ◌<◌, ◌^◌, ◌≡◌, refl, ap, sym, ◌∙◌, subst, some, List, [], ◌∷◌, ◌++◌,
  length, set, All, arith, append_assoc, length-append, All-append,
}
use config_wp.Codec.Tag.{config_codec_make_tag, tag_fields}
use config_wp.Codec.Interface.{LawfulCodec}
use config_wp.Config.State.{Config, config_ok}
use config_wp.Config.Decode.{decode_into_record_locked}
use config_wp.Config.Decode.Replay.{Replay, Replay-append}
use config_wp.Config.Stream.{Entry, IsEntry, array_entries}

-- An array of the cache: how it is read and replaced, and what decoding a record of it does.
pub record Bank {A : Type 0} (k : LawfulCodec A) : Type 0 where
  pub domain : ℕ
  pub count : ℕ
  pub domain_fits : domain < 2 ^ 8
  pub count_fits : count ≤ 2 ^ 8
  pub size_fits : k.wire_size < 2 ^ 16
  pub field : Config → List A
  pub put : Config → List A → Config
  pub field-put : (c : Config) (xs : List A) → field (put c xs) ≡ xs
  pub put-put : (c : Config) (xs ys : List A) → put (put c xs) ys ≡ put c ys
  pub put-field : (c : Config) → put c (field c) ≡ c
  pub decodes :
      (c : Config) (i : ℕ) (r : A)
      → i < count
      → k.IsWire r
      → decode_into_record_locked c
          (config_codec_make_tag domain i)
          (k.bytes r)
          (length (k.bytes r))
        ≡ some (config_ok, put c (set (field c) i r))

set-append :
    {A : Type 0} (pre old : List A) (o r : A) (i : ℕ)
    → length pre ≡ i
    → set (pre ++ o ∷ old) i r ≡ (pre ++ r ∷ []) ++ old
set-append [] old o r zero h = refl
set-append [] old o r (suc i) h = absurd (omega arith)
set-append (x ∷ pre) old o r zero h = absurd (omega arith)
set-append (x ∷ pre) old o r (suc i) h = ap (λ ys. x ∷ ys) (set-append pre old o r i (omega arith))

module _ {A : Type 0} {k : LawfulCodec A} (b : Bank k) where
  -- The records from index `i` on, over an array whose first `i` elements are `pre`.
  suffix-Replay :
      (rs old pre : List A) (i : ℕ) (c : Config)
      → b.field c ≡ pre ++ old
      → length pre ≡ i
      → length old ≡ length rs
      → i + length rs ≤ b.count
      → All k.IsWire rs
      → Replay c (array_entries b.domain k.bytes rs i) (b.put c (pre ++ rs))
  suffix-Replay [] [] pre i c now at same fits wire = sym (ap (b.put c) (sym now) ∙ b.put-field c)
  suffix-Replay [] (o ∷ old) pre i c now at same fits wire = absurd (omega arith)
  suffix-Replay (r ∷ rs) [] pre i c now at same fits wire = absurd (omega arith)
  suffix-Replay (r ∷ rs) (o ∷ old) pre i c now at same fits wire =
      let d = b.put c (set (b.field c) i r) in
      let wrote : b.field d ≡ (pre ++ r ∷ []) ++ old =
        b.field-put c (set (b.field c) i r)
        ∙ ap (λ xs. set xs i r) now
        ∙ set-append pre old o r i at in
      let end : b.put d ((pre ++ r ∷ []) ++ rs) ≡ b.put c (pre ++ r ∷ rs) =
        b.put-put c (set (b.field c) i r) ((pre ++ r ∷ []) ++ rs)
        ∙ ap (b.put c) (append_assoc pre (r ∷ []) rs) in
      (
        d,
        b.decodes c i r (omega arith) wire.0,
        subst (Replay d (array_entries b.domain k.bytes rs (i + 1))) end (
            suffix-Replay rs old (pre ++ r ∷ []) (i + 1) d wrote
              (omega (arith, length-append pre (r ∷ []))) (omega arith) (omega arith) wire.1),
      )

  -- The records of a whole array replace it, and the others run on.
  pub array-Replay :
      (rs : List A) (c e : Config) (es : List Entry)
      → length (b.field c) ≡ b.count
      → length rs ≡ b.count
      → All k.IsWire rs
      → Replay (b.put c rs) es e
      → Replay c (array_entries b.domain k.bytes rs 0 ++ es) e
  array-Replay rs c e es now same wire run =
      Replay-append (array_entries b.domain k.bytes rs 0) es c (b.put c rs) e
        (suffix-Replay rs (b.field c) [] 0 c refl refl (now ∙ sym same) (omega arith) wire) run

  -- The records of an array have 16-bit tags and lengths.
  suffix-IsEntry :
      (rs : List A) (i : ℕ)
      → i + length rs ≤ b.count
      → All k.IsWire rs
      → All IsEntry (array_entries b.domain k.bytes rs i)
  suffix-IsEntry [] i fits wire = tt
  suffix-IsEntry (r ∷ rs) i fits wire =
      let (domain, index, tag) =
        tag_fields b.domain i b.domain_fits (omega (arith, b.count_fits)) in
      (
        (tag, omega (arith, k.length-bytes r wire.0, b.size_fits)),
        suffix-IsEntry rs (i + 1) (omega arith) wire.1,
      )

  pub array-IsEntry :
      (rs : List A) (es : List Entry)
      → length rs ≡ b.count
      → All k.IsWire rs
      → All IsEntry es
      → All IsEntry (array_entries b.domain k.bytes rs 0 ++ es)
  array-IsEntry rs es same wire entries =
      All-append IsEntry (array_entries b.domain k.bytes rs 0) es
        (suffix-IsEntry rs 0 (omega arith) wire) entries
