-- ===== src/Config/Stash.antt =====
-- s_unknown as a list of records: what preserve_unknown_locked keeps, and that a record is kept
-- exactly where the switch of decode_into_record_locked does not know its tag.
use config_wp.Base.{
  ℕ, ◌+◌, ◌-◌, ◌≤◌, ◌<◌, ◌≡◌, refl, ap, sym, ◌∙◌, Bool, false, some, List, [], ◌∷◌, ◌++◌, length,
  take, drop, All, arith, append-nil, length-append, length-take, length-drop, take-append_ge,
  All-append, ap₂, ltb, le→ltb, lt→ltb, ◌==◌, ◌||◌, ◌&&◌,
}
use config_wp.Types.{
  config_num_di, config_num_do, config_num_tc, config_num_ai, config_num_ao, config_num_pcnt,
  config_num_pwm, io_domain_di, io_domain_do, io_domain_tc, io_domain_ai, io_domain_ao,
  io_domain_pcnt, io_domain_pwm,
}
use config_wp.Tlv.{TlvWriter, tlv_writer_init, record_bytes}
use config_wp.Tlv.Status.{tlv_ok}
use config_wp.Tlv.Writer.{init-Holds, emit-Holds, length-record_bytes}
use config_wp.Codec.Tag.{domain_system, config_codec_tag_domain, config_codec_tag_index}
use config_wp.Config.State.{Config, config_ok, unknown_buf_bytes}
use config_wp.Config.Decode.{preserve_unknown_locked, decode_into_record_locked, stash}
use config_wp.Config.Stream.{Entry, IsEntry, stream, stream-append}

-- The tags that this firmware knows.
unfoldable pub is_known : ℕ → Bool
is_known tag =
    let domain = config_codec_tag_domain tag in
    let index = config_codec_tag_index tag in
    domain == io_domain_di && ltb index config_num_di
    || domain == io_domain_do && ltb index config_num_do
    || domain == io_domain_tc && ltb index config_num_tc
    || domain == io_domain_ai && ltb index config_num_ai
    || domain == io_domain_ao && ltb index config_num_ao
    || domain == io_domain_pcnt && ltb index config_num_pcnt
    || domain == io_domain_pwm && ltb index config_num_pwm
    || domain == domain_system

abbrev pub IsUnknown : Entry → Type 0
IsUnknown (tag, v) = is_known tag ≡ false

-- The stash holds the records `us`, all well formed and of unknown tags.
pub record IsStash (c : Config) (us : List Entry) : Type 0 where
  pub size : length c.unknown ≡ unknown_buf_bytes
  pub used : c.unknown_used ≡ length (stream us)
  pub fits : c.unknown_used ≤ unknown_buf_bytes
  pub held : take c.unknown_used c.unknown ≡ stream us
  pub entries : All IsEntry us
  pub unknown : All IsUnknown us

-- The cache and the blob buffer of the one are those of the other.
abbrev pub SameButStash : Config → Config → Type 0
SameButStash d c = (d.cache ≡ c.cache) × (d.blob_buf ≡ c.blob_buf)

-- decode_into_record_locked hands every record whose tag it does not know (a domain it does not
-- have, or an index beyond the domain's array), whatever its bytes, to preserve_unknown_locked,
-- and reports CONFIG_OK.
pub decode-unknown :
    (c : Config) (tag : ℕ) (v : List ℕ) (len : ℕ)
    → is_known tag ≡ false
    → decode_into_record_locked c tag v len ≡ some (config_ok, preserve_unknown_locked c tag v len)
unfolding is_known decode_into_record_locked
decode-unknown c tag v len h = ground arith

-- The state with the record behind those that the stash holds.
abbrev kept : Config → List ℕ → ℕ → Config
kept c mem n = record c {
  unknown = take c.unknown_used c.unknown ++ mem;
  unknown_used = c.unknown_used + n;
}

stash_ok :
    (c : Config) (w : TlvWriter) (mem : List ℕ)
    → w.buf ≡ some mem
    → stash c (tlv_ok, w) ≡ kept c mem w.used
stash_ok c w mem e = rw (e, stash) refl

kept-IsStash :
    (c : Config) (us : List Entry) (tag : ℕ) (v mem : List ℕ) (n : ℕ)
    → IsStash c us
    → IsEntry (tag, v)
    → is_known tag ≡ false
    → length mem ≡ unknown_buf_bytes - c.unknown_used
    → n ≡ 4 + length v
    → c.unknown_used + n ≤ unknown_buf_bytes
    → take n mem ≡ record_bytes tag v
    → IsStash (kept c mem n) (us ++ (tag, v) ∷ [])
kept-IsStash c us tag v mem n h entry unknown rest whole room holds =
    let before : length (take c.unknown_used c.unknown) ≡ c.unknown_used =
      omega (arith, length-take c.unknown_used c.unknown, h.size, h.fits) in
    let all : stream (us ++ (tag, v) ∷ []) ≡ stream us ++ record_bytes tag v =
      stream-append us ((tag, v) ∷ [])
      ∙ ap (λ (s : List ℕ). stream us ++ s) (append-nil (record_bytes tag v)) in
    record {
      size = omega (arith, length-append (take c.unknown_used c.unknown) mem, before, rest, h.fits);
      used = omega (
        arith,
        h.used,
        ap (λ (s : List ℕ). length s) all,
        length-append (stream us) (record_bytes tag v),
        length-record_bytes tag v,
      );
      fits = room;
      held =
          take-append_ge (c.unknown_used + n) n (take c.unknown_used c.unknown) mem (omega arith)
          ∙ ap₂ ◌++◌ h.held holds
          ∙ sym all;
      entries = All-append IsEntry us ((tag, v) ∷ []) h.entries (entry, tt);
      unknown = All-append IsUnknown us ((tag, v) ∷ []) h.unknown (unknown, tt);
    }

-- Where the stash holds whole records of unknown tags and the new one fits,
-- preserve_unknown_locked appends it and keeps the invariant, and the cache and the blob buffer
-- stay as they were.
pub preserve-IsStash :
    (c : Config) (us : List Entry) (tag : ℕ) (v : List ℕ)
    → IsStash c us
    → IsEntry (tag, v)
    → is_known tag ≡ false
    → c.unknown_used + (4 + length v) ≤ unknown_buf_bytes
    → (d : Config) × (preserve_unknown_locked c tag v (length v) ≡ d)
      × IsStash d (us ++ (tag, v) ∷ [])
      × SameButStash d c
unfolding preserve_unknown_locked
preserve-IsStash c us tag v h entry unknown room =
    let part = drop c.unknown_used c.unknown in
    let free = unknown_buf_bytes - c.unknown_used in
    let (w, emits, holds, capacity) =
      emit-Holds (tlv_writer_init (some part) free) [] tag v
        (init-Holds part free (omega (arith, length-drop c.unknown_used c.unknown, h.size))) entry.1
        (omega (arith, h.fits)) in
    (
      kept c holds.mem w.used,
      rw (le→ltb (c.unknown_used + (4 + length v)) unknown_buf_bytes room, emits)
          (stash_ok c w holds.mem holds.buf),
      kept-IsStash c us tag v holds.mem w.used h entry unknown (holds.size ∙ capacity)
          (omega (arith, holds.used, length-record_bytes tag v))
          (omega (arith, holds.used, length-record_bytes tag v)) holds.written,
      (refl, refl),
    )

-- A record for which there is no room is dropped, and nothing changes.
pub preserve_full :
    (c : Config) (tag : ℕ) (v : List ℕ)
    → unknown_buf_bytes < c.unknown_used + (4 + length v)
    → preserve_unknown_locked c tag v (length v) ≡ c
unfolding preserve_unknown_locked
preserve_full c tag v full =
    rw (lt→ltb unknown_buf_bytes (c.unknown_used + (4 + length v)) full) refl
