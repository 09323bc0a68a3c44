-- ===== src/Config/Decode/Cache.antt =====
-- Decoding the records of a whole cache, and those of unknown tags behind them.
use config_wp.Base.{
  ℕ, ◌≤◌, ◌≡◌, refl, ap, sym, ◌∙◌, subst, some, List, [], ◌∷◌, ◌++◌, length, All, arith, append-nil,
  append_assoc, length-append,
}
use config_wp.Types.{
  config_num_di, config_num_do, config_num_tc, config_num_ai, config_num_ao, config_num_pcnt,
  config_num_pwm, io_domain_di, io_domain_do, io_domain_tc, io_domain_ai, io_domain_ao,
  io_domain_pcnt, io_domain_pwm,
}
use config_wp.Tlv.{record_bytes}
use config_wp.Tlv.Writer.{length-record_bytes}
use config_wp.Codec.Tag.{tag_fields, domain_system, system_index}
use config_wp.Codec.Encode.{di_bytes, do_bytes, tc_bytes, ai_bytes, ao_bytes, pcnt_bytes, pwm_bytes}
use config_wp.Codec.Interface.{
  di_codec, do_codec, tc_codec, ai_codec, ao_codec, pcnt_codec, pwm_codec,
}
use config_wp.Codec.RoundTrip.{length-system_bytes}
use config_wp.Config.State.{Cache, Config, config_ok, unknown_buf_bytes}
use config_wp.Config.Decode.{
  with_di, with_do, with_tc, with_ai, with_ao, with_pcnt, with_pwm, with_system,
}
use config_wp.Config.Decode.Replay.{Replay}
use config_wp.Config.Decode.Bank.{array-Replay, array-IsEntry}
use config_wp.Config.Decode.Banks.{
  di_bank, do_bank, tc_bank, ai_bank, ao_bank, pcnt_bank, pwm_bank, system-Replay,
}
use config_wp.Config.Stash.{IsStash, IsUnknown, SameButStash, decode-unknown, preserve-IsStash}
use config_wp.Config.Stream.{
  Entry, IsEntry, IsWireCache, stream, stream-append, array_entries, system_entry, cache_entries,
}

-- Arrays of the sizes that the program has.
pub record IsFull (c : Cache) : Type 0 where
  pub di : length c.di ≡ config_num_di
  pub do_ : length c.do_ ≡ config_num_do
  pub tc : length c.tc ≡ config_num_tc
  pub ai : length c.ai ≡ config_num_ai
  pub ao : length c.ao ≡ config_num_ao
  pub pcnt : length c.pcnt ≡ config_num_pcnt
  pub pwm : length c.pwm ≡ config_num_pwm

-- The records of the cache from each array on.
abbrev tail_pwm : Cache → List Entry
tail_pwm v = array_entries io_domain_pwm pwm_bytes v.pwm 0 ++ system_entry v

abbrev tail_pcnt : Cache → List Entry
tail_pcnt v = array_entries io_domain_pcnt pcnt_bytes v.pcnt 0 ++ tail_pwm v

abbrev tail_ao : Cache → List Entry
tail_ao v = array_entries io_domain_ao ao_bytes v.ao 0 ++ tail_pcnt v

abbrev tail_ai : Cache → List Entry
tail_ai v = array_entries io_domain_ai ai_bytes v.ai 0 ++ tail_ao v

abbrev tail_tc : Cache → List Entry
tail_tc v = array_entries io_domain_tc tc_bytes v.tc 0 ++ tail_ai v

abbrev tail_do : Cache → List Entry
tail_do v = array_entries io_domain_do do_bytes v.do_ 0 ++ tail_tc v

abbrev tail_di : Cache → List Entry
tail_di v = array_entries io_domain_di di_bytes v.di 0 ++ tail_do v

module _ (c : Config) (v : Cache) (full : IsFull c.cache) (h : IsWireCache v) where
  -- The records of `v` make it the cache, whatever was there.
  pub cache-Replay : Replay c (cache_entries v) (record c { cache = v })
  unfolding cache_entries di_bank do_bank tc_bank ai_bank ao_bank pcnt_bank pwm_bank di_codec
      do_codec tc_codec ai_codec ao_codec pcnt_codec pwm_codec
  cache-Replay =
      let c_di = with_di c v.di in
      let c_do = with_do c_di v.do_ in
      let c_tc = with_tc c_do v.tc in
      let c_ai = with_ai c_tc v.ai in
      let c_ao = with_ao c_ai v.ao in
      let c_pcnt = with_pcnt c_ao v.pcnt in
      let c_pwm = with_pwm c_pcnt v.pwm in
      let end = with_system c_pwm v.system in
      let run_system : Replay c_pwm (system_entry v) end =
        (end, system-Replay c_pwm v.system h.system, refl) in
      let run_pwm : Replay c_pcnt (tail_pwm v) end =
        array-Replay pwm_bank v.pwm c_pcnt end (system_entry v) full.pwm h.pwm_count h.pwm
          run_system in
      let run_pcnt : Replay c_ao (tail_pcnt v) end =
        array-Replay pcnt_bank v.pcnt c_ao end (tail_pwm v) full.pcnt h.pcnt_count h.pcnt run_pwm in
      let run_ao : Replay c_ai (tail_ao v) end =
        array-Replay ao_bank v.ao c_ai end (tail_pcnt v) full.ao h.ao_count h.ao run_pcnt in
      let run_ai : Replay c_tc (tail_ai v) end =
        array-Replay ai_bank v.ai c_tc end (tail_ao v) full.ai h.ai_count h.ai run_ao in
      let run_tc : Replay c_do (tail_tc v) end =
        array-Replay tc_bank v.tc c_do end (tail_ai v) full.tc h.tc_count h.tc run_ai in
      let run_do : Replay c_di (tail_do v) end =
        array-Replay do_bank v.do_ c_di end (tail_tc v) full.do_ h.do_count h.do_ run_tc in
      let run_di : Replay c (tail_di v) end =
        array-Replay di_bank v.di c end (tail_do v) full.di h.di_count h.di run_do in
      run_di

  pub cache-IsEntry : All IsEntry (cache_entries v)
  unfolding cache_entries di_bank do_bank tc_bank ai_bank ao_bank pcnt_bank pwm_bank di_codec
      do_codec tc_codec ai_codec ao_codec pcnt_codec pwm_codec
  cache-IsEntry =
      let (domain, index, tag) =
        tag_fields domain_system system_index (omega arith) (omega arith) in
      let system : All IsEntry (system_entry v) =
        ((tag, omega (arith, length-system_bytes v.system)), tt) in
      let entries_pwm : All IsEntry (tail_pwm v) =
        array-IsEntry pwm_bank v.pwm (system_entry v) h.pwm_count h.pwm system in
      let entries_pcnt : All IsEntry (tail_pcnt v) =
        array-IsEntry pcnt_bank v.pcnt (tail_pwm v) h.pcnt_count h.pcnt entries_pwm in
      let entries_ao : All IsEntry (tail_ao v) =
        array-IsEntry ao_bank v.ao (tail_pcnt v) h.ao_count h.ao entries_pcnt in
      let entries_ai : All IsEntry (tail_ai v) =
        array-IsEntry ai_bank v.ai (tail_ao v) h.ai_count h.ai entries_ao in
      let entries_tc : All IsEntry (tail_tc v) =
        array-IsEntry tc_bank v.tc (tail_ai v) h.tc_count h.tc entries_ai in
      let entries_do : All IsEntry (tail_do v) =
        array-IsEntry do_bank v.do_ (tail_tc v) h.do_count h.do_ entries_tc in
      array-IsEntry di_bank v.di (tail_do v) h.di_count h.di entries_do

-- Records of unknown tags, behind those that the stash holds already, all end up in the stash.
pub unknown-Replay :
    (es us : List Entry) (c : Config)
    → IsStash c us
    → All IsEntry es
    → All IsUnknown es
    → length (stream (us ++ es)) ≤ unknown_buf_bytes
    → (d : Config) × Replay c es d × IsStash d (us ++ es) × SameButStash d c
unknown-Replay [] us c h entry unknown fits =
    (c, refl, subst (IsStash c) (sym (append-nil us)) h, (refl, refl))
unknown-Replay ((tag, v) ∷ es) us c h entry unknown fits =
    let here = append_assoc us ((tag, v) ∷ []) es in
    let (d, kept, held, same) = preserve-IsStash c us tag v h entry.0 unknown.0 (
      omega (
        arith,
        h.used,
        fits,
        ap (λ (s : List ℕ). length s) (stream-append us ((tag, v) ∷ es)),
        length-append (stream us) (record_bytes tag v ++ stream es),
        length-append (record_bytes tag v) (stream es),
        length-record_bytes tag v,
      )) in
    let (e, run, all, same') =
      unknown-Replay es (us ++ (tag, v) ∷ []) d held entry.1 unknown.1
        (subst (λ (s : List Entry). length (stream s) ≤ unknown_buf_bytes) (sym here) fits) in
    (
      e,
      (
        d,
        decode-unknown c tag v (length v) unknown.0 ∙ ap (λ (x : Config). some (config_ok, x)) kept,
        run,
      ),
      subst (IsStash e) here all,
      (same'.0 ∙ same.0, same'.1 ∙ same.1),
    )
