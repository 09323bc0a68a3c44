-- ===== src/Config/Decode/Total.antt =====
-- decode_blob_locked returns on every blob: no read leaves the buffer, and the loop ends.
use config_wp.Base.{
  ◌⊎◌, ◌==◌, ltb, set, ℕ, zero, suc, ◌+◌, ◌≤◌, ◌<◌, ◌≡◌, ◌≢◌, refl, ap, subst, Bool, true, false,
  Option, some, none, List, length, arith, inl, inr, if◌then◌else◌,
}
use config_wp.Tlv.{TlvIter, IterStep, record_at, stopped, fault, tlv_iter_init, tlv_iter_next}
use config_wp.Tlv.Status.{TlvStatus}
use config_wp.Tlv.Iter.{Steps, next-Steps}
use config_wp.Codec.Decode
use config_wp.Codec.Decode.{
  Decoded, failed, decoded, read_di, read_do, read_tc, read_ai, read_ao, read_pcnt, read_pwm,
  read_system, config_codec_decode_di, config_codec_decode_do, config_codec_decode_tc,
  config_codec_decode_ai, config_codec_decode_ao, config_codec_decode_pcnt, config_codec_decode_pwm,
  config_codec_decode_system,
}
use config_wp.Codec.Total.{
  decode_with-total, di-Takes, do-Takes, tc-Takes, ai-Takes, ao-Takes, pcnt-Takes, pwm-Takes,
  system-Takes,
}
use config_wp.Types.{
  DiConfig, DoConfig, TcConfig, AiConfig, AoConfig, PcntConfig, PwmConfig, config_num_di,
  config_num_do, config_num_tc, config_num_ai, config_num_ao, config_num_pcnt, config_num_pwm,
  io_domain_di, io_domain_do, io_domain_tc, io_domain_ai, io_domain_ao, io_domain_pcnt,
  io_domain_pwm,
}
use config_wp.Codec.Tag.{domain_system, config_codec_tag_domain, config_codec_tag_index}
use config_wp.Config.State.{Config, ConfigStatus, config_ok}
use config_wp.Config.Decode.{
  after_record, preserve_unknown_locked, with_di, with_do, with_tc, with_ai, with_ao, with_pcnt,
  with_pwm, with_system, store, decode_into_record_locked, decode_blob_loop, decode_blob_locked,
}

abbrev pub Returns : {A : Type 0} → Option A → Type 0
Returns {A = A} o = (r : A) × (o ≡ some r)

if-Returns :
    {A : Type 0} (b : Bool) (x y : Option A) → Returns x → Returns y → Returns (if b then x else y)
if-Returns true x y p q = p
if-Returns false x y p q = q

store-Returns :
    {A : Type 0} (c : Config) (r : Decoded A) (f : A → Config)
    → r ≢ Decode.fault
    → Returns (store c r f)
store-Returns c (failed st) f h = (_, refl)
store-Returns c Decode.fault f h = absurd (h refl)
store-Returns c (decoded r) f h = (_, refl)

-- Whatever the tag and the bytes are, the record is stored, kept, dropped or refused.
pub decode_record-Returns :
    (c : Config) (tag : ℕ) (v : List ℕ) → Returns (decode_into_record_locked c tag v (length v))
unfolding decode_into_record_locked config_codec_decode_di config_codec_decode_do
    config_codec_decode_tc config_codec_decode_ai config_codec_decode_ao config_codec_decode_pcnt
    config_codec_decode_pwm config_codec_decode_system
decode_record-Returns c tag v =
    let domain = config_codec_tag_domain tag in
    let index = config_codec_tag_index tag in
    let kept : Option (ConfigStatus × Config) =
      some (config_ok, preserve_unknown_locked c tag v (length v)) in
    let after_system =
      if-Returns (domain == domain_system)
        (store c (config_codec_decode_system (some v) (length v) true) (with_system c)) kept
        (store-Returns c (config_codec_decode_system (some v) (length v) true) (with_system c)
          (decode_with-total 13 read_system v (length v) true system-Takes (omega arith)))
        (_, refl) in
    let of_pwm = config_codec_decode_pwm (some v) (length v) true in
    let put_pwm = λ (r : PwmConfig). with_pwm c (set c.cache.pwm index r) in
    let after_pwm =
      if-Returns (domain == io_domain_pwm) _ _
        (if-Returns (ltb index config_num_pwm) (store c of_pwm put_pwm) kept
          (store-Returns c of_pwm put_pwm
            (decode_with-total 27 read_pwm v (length v) true pwm-Takes (omega arith)))
          (_, refl))
        after_system in
    let of_pcnt = config_codec_decode_pcnt (some v) (length v) true in
    let put_pcnt = λ (r : PcntConfig). with_pcnt c (set c.cache.pcnt index r) in
    let after_pcnt =
      if-Returns (domain == io_domain_pcnt) _ _
        (if-Returns (ltb index config_num_pcnt) (store c of_pcnt put_pcnt) kept
          (store-Returns c of_pcnt put_pcnt
            (decode_with-total 25 read_pcnt v (length v) true pcnt-Takes (omega arith)))
          (_, refl))
        after_pwm in
    let of_ao = config_codec_decode_ao (some v) (length v) true in
    let put_ao = λ (r : AoConfig). with_ao c (set c.cache.ao index r) in
    let after_ao =
      if-Returns (domain == io_domain_ao) _ _
        (if-Returns (ltb index config_num_ao) (store c of_ao put_ao) kept
          (store-Returns c of_ao put_ao
            (decode_with-total 38 read_ao v (length v) true ao-Takes (omega arith)))
          (_, refl))
        after_pcnt in
    let of_ai = config_codec_decode_ai (some v) (length v) true in
    let put_ai = λ (r : AiConfig). with_ai c (set c.cache.ai index r) in
    let after_ai =
      if-Returns (domain == io_domain_ai) _ _
        (if-Returns (ltb index config_num_ai) (store c of_ai put_ai) kept
          (store-Returns c of_ai put_ai
            (decode_with-total 38 read_ai v (length v) true ai-Takes (omega arith)))
          (_, refl))
        after_ao in
    let of_tc = config_codec_decode_tc (some v) (length v) true in
    let put_tc = λ (r : TcConfig). with_tc c (set c.cache.tc index r) in
    let after_tc =
      if-Returns (domain == io_domain_tc) _ _
        (if-Returns (ltb index config_num_tc) (store c of_tc put_tc) kept
          (store-Returns c of_tc put_tc
            (decode_with-total 26 read_tc v (length v) true tc-Takes (omega arith)))
          (_, refl))
        after_ai in
    let of_do = config_codec_decode_do (some v) (length v) true in
    let put_do = λ (r : DoConfig). with_do c (set c.cache.do_ index r) in
    let after_do =
      if-Returns (domain == io_domain_do) _ _
        (if-Returns (ltb index config_num_do) (store c of_do put_do) kept
          (store-Returns c of_do put_do
            (decode_with-total 20 read_do v (length v) true do-Takes (omega arith)))
          (_, refl))
        after_tc in
    let of_di = config_codec_decode_di (some v) (length v) true in
    let put_di = λ (r : DiConfig). with_di c (set c.cache.di index r) in
    let after_di =
      if-Returns (domain == io_domain_di) _ _
        (if-Returns (ltb index config_num_di) (store c of_di put_di) kept
          (store-Returns c of_di put_di
            (decode_with-total 23 read_di v (length v) true di-Takes (omega arith)))
          (_, refl))
        after_do in
    after_di

Step-cases :
    (r : IterStep)
    → ((st : TlvStatus) × (r ≡ stopped st))
      ⊎ ((tag : ℕ) × (v : List ℕ) × (it : TlvIter) × (r ≡ record_at tag v it))
      ⊎ (r ≡ fault)
Step-cases (stopped st) = inl (st, refl)
Step-cases (record_at tag v it) = inr (inl (tag, v, it, refl))
Step-cases fault = inr (inr refl)

after_record-Returns :
    (o : Option (ConfigStatus × Config)) (rest : Config → Option (ConfigStatus × Config))
    → Returns o
    → ((d : Config) → Returns (rest d))
    → Returns (after_record o rest)
after_record-Returns none rest (r, e) h = absurd cc
after_record-Returns (some (config_ok, d)) rest r h = h d
after_record-Returns (some (failure, d)) rest r h = (_, refl)

-- From any place in the buffer, the loop ends within one round for each byte that is left.
loop-Returns :
    (fuel : ℕ) (it : TlvIter) (c : Config)
    → it.cursor ≤ it.buf_len
    → it.buf_len ≤ length it.buf
    → it.buf_len < it.cursor + fuel
    → Returns (decode_blob_loop fuel it c)
unfolding decode_blob_loop
loop-Returns zero it c inside in_mem enough = absurd (omega arith)
loop-Returns (suc fuel) it c inside in_mem enough = elim (Step-cases (tlv_iter_next it)) [
  | inl (st, e) ↦ rw (e, decode_blob_loop) (_, refl)
  | inr (inl (tag, v, it', e)) ↦
      let (same, len, moved, within) = subst (Steps it) e (next-Steps it inside in_mem) in
      rw (e, decode_blob_loop)
        (after_record-Returns (decode_into_record_locked c tag v (length v))
          (λ d. decode_blob_loop fuel it' d) (decode_record-Returns c tag v)
          (λ d.
            loop-Returns fuel it' d (omega arith)
              (omega (arith, ap (λ (m : List ℕ). length m) same)) (omega arith)))
  | inr (inr e) ↦ absurd (subst (Steps it) e (next-Steps it inside in_mem))
]

-- On any bytes, and any length that does not exceed the buffer, decode_blob_locked returns a
-- status and a state: the loop ends, and no read of the iterator or of a decoder leaves the
-- buffer.
pub decode_blob-Returns :
    (c : Config) (blob : List ℕ) (len : ℕ)
    → len ≤ length blob
    → (r : ConfigStatus × Config) × (decode_blob_locked c blob len ≡ some r)
unfolding decode_blob_locked
decode_blob-Returns c blob len h =
    loop-Returns (len + 1) (tlv_iter_init blob len) c (omega arith) h (omega arith)
