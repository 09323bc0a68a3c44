-- ===== src/Json/Restore/Arrays.antt =====
-- The seven arrays of an export, each imported into its channel.
use config_wp.Base.{◌≡◌, ◌<◌, refl, true, Option, some, List, [], ◌∷◌, length, All, arith}
use config_wp.Types.{tc_unit_kelvin}
use config_wp.Config.State.{Cache}
use config_wp.Config.Access.Channel.{
  di_channel, do_channel, tc_channel, ai_channel, ao_channel, pcnt_channel, pwm_channel,
}
use config_wp.Config.Calls.{IsValidCache}
use config_wp.Json.{Json, array}
use config_wp.Json.Patch.Records.{
  patch_di_record, patch_do_record, patch_tc_record, patch_ai_record, patch_ao_record,
  patch_pcnt_record, patch_pwm_record,
}
use config_wp.Json.Build.{
  di_members, build_di, do_members, build_do, tc_members, build_tc, ai_members, build_ai,
  ao_members, build_ao, pcnt_members, build_pcnt, pwm_members, build_pwm,
}
use config_wp.Json.Import.{Import, apply_found}
use config_wp.Json.RoundTrip.{IsTidy}
use config_wp.Json.RoundTrip.Inputs.{
  patch_di-build_di, patch_do-build_do, patch_tc-build_tc, patch_ai-build_ai,
}
use config_wp.Json.RoundTrip.Outputs.{patch_ao-build_ao, patch_pcnt-build_pcnt, patch_pwm-build_pwm}
use config_wp.Json.Restore.{items_of}
use config_wp.Json.Restore.Apply.{stored_in, apply_array_lem}

-- A cache that the export loses nothing of: valid, with names that are zeros after their
-- terminator, and with no thermocouple in kelvin.
pub record IsPortable (v : Cache) : Type 0 where
  pub valid : IsValidCache v
  pub di : All (λ r. IsTidy r.name) v.di
  pub do_ : All (λ r. IsTidy r.name) v.do_
  pub tc : All (λ r. IsTidy r.name) v.tc
  pub ai : All (λ r. IsTidy r.name) v.ai
  pub ao : All (λ r. IsTidy r.name) v.ao
  pub pcnt : All (λ r. IsTidy r.name) v.pcnt
  pub pwm : All (λ r. IsTidy r.name) v.pwm
  pub tc_units : All (λ r. r.unit < tc_unit_kelvin) v.tc

all_both :
    {A : Type 0} {P Q R : A → Type 0} (xs : List A)
    → ((x : A) → P x → Q x → R x)
    → All P xs
    → All Q xs
    → All R xs
all_both [] f p q = tt
all_both (x ∷ xs) f p q = (f x p.0 q.0, all_both xs f p.1 q.1)

pub restore_di :
    (on_null : Option Json) (v : Cache) (s : Import)
    → IsPortable v
    → s.config.initialised ≡ true
    → length s.config.cache.di ≡ di_channel.count
    → apply_found "di" di_channel patch_di_record
        (some (array (items_of (build_di on_null) 0 v.di)))
        s
      ≡ some (stored_in di_channel v.di di_channel.count s)
unfolding di_channel build_di di_members
restore_di on_null v s h on full =
    apply_array_lem "di" di_channel patch_di_record (di_members on_null) (omega arith) (λ i x. refl)
      v.di s on full h.valid.0.0
      (all_both v.di (λ r p q. (λ i old. patch_di-build_di on_null i r old p.0 q p.1, p.1))
        h.valid.0.1 h.di)

pub restore_do :
    (on_null : Option Json) (v : Cache) (s : Import)
    → IsPortable v
    → s.config.initialised ≡ true
    → length s.config.cache.do_ ≡ do_channel.count
    → apply_found "do" do_channel patch_do_record
        (some (array (items_of (build_do on_null) 0 v.do_)))
        s
      ≡ some (stored_in do_channel v.do_ do_channel.count s)
unfolding do_channel build_do do_members
restore_do on_null v s h on full =
    apply_array_lem "do" do_channel patch_do_record (do_members on_null) (omega arith) (λ i x. refl)
      v.do_ s on full h.valid.1.0
      (all_both v.do_ (λ r p q. (λ i old. patch_do-build_do on_null i r old p.0 q p.1, p.1))
        h.valid.1.1 h.do_)

pub restore_tc :
    (on_null : Option Json) (v : Cache) (s : Import)
    → IsPortable v
    → s.config.initialised ≡ true
    → length s.config.cache.tc ≡ tc_channel.count
    → apply_found "tc" tc_channel patch_tc_record
        (some (array (items_of (build_tc on_null) 0 v.tc)))
        s
      ≡ some (stored_in tc_channel v.tc tc_channel.count s)
unfolding tc_channel build_tc tc_members
restore_tc on_null v s h on full =
    apply_array_lem "tc" tc_channel patch_tc_record (tc_members on_null) (omega arith) (λ i x. refl)
      v.tc s on full h.valid.2.0
      (all_both v.tc (λ r p q. (λ i old. patch_tc-build_tc on_null i r old p.0 q.0 p.1 q.1, p.1))
        h.valid.2.1
        (all_both {R = λ r. IsTidy r.name × (r.unit < tc_unit_kelvin)} v.tc (λ r q u. (q, u)) h.tc
          h.tc_units))

pub restore_ai :
    (on_null : Option Json) (v : Cache) (s : Import)
    → IsPortable v
    → s.config.initialised ≡ true
    → length s.config.cache.ai ≡ ai_channel.count
    → apply_found "ai" ai_channel patch_ai_record
        (some (array (items_of (build_ai on_null) 0 v.ai)))
        s
      ≡ some (stored_in ai_channel v.ai ai_channel.count s)
unfolding ai_channel build_ai ai_members
restore_ai on_null v s h on full =
    apply_array_lem "ai" ai_channel patch_ai_record (ai_members on_null) (omega arith) (λ i x. refl)
      v.ai s on full h.valid.3.0
      (all_both v.ai (λ r p q. (λ i old. patch_ai-build_ai on_null i r old p.0 q p.1, p.1))
        h.valid.3.1 h.ai)

pub restore_ao :
    (on_null : Option Json) (v : Cache) (s : Import)
    → IsPortable v
    → s.config.initialised ≡ true
    → length s.config.cache.ao ≡ ao_channel.count
    → apply_found "ao" ao_channel patch_ao_record
        (some (array (items_of (build_ao on_null) 0 v.ao)))
        s
      ≡ some (stored_in ao_channel v.ao ao_channel.count s)
unfolding ao_channel build_ao ao_members
restore_ao on_null v s h on full =
    apply_array_lem "ao" ao_channel patch_ao_record (ao_members on_null) (omega arith) (λ i x. refl)
      v.ao s on full h.valid.4.0
      (all_both v.ao (λ r p q. (λ i old. patch_ao-build_ao on_null i r old p.0 q p.1, p.1))
        h.valid.4.1 h.ao)

pub restore_pcnt :
    (on_null : Option Json) (v : Cache) (s : Import)
    → IsPortable v
    → s.config.initialised ≡ true
    → length s.config.cache.pcnt ≡ pcnt_channel.count
    → apply_found "pcnt" pcnt_channel patch_pcnt_record
        (some (array (items_of (build_pcnt on_null) 0 v.pcnt)))
        s
      ≡ some (stored_in pcnt_channel v.pcnt pcnt_channel.count s)
unfolding pcnt_channel build_pcnt pcnt_members
restore_pcnt on_null v s h on full =
    apply_array_lem "pcnt" pcnt_channel patch_pcnt_record (pcnt_members on_null) (omega arith)
      (λ i x. refl) v.pcnt s on full h.valid.5.0
      (all_both v.pcnt (λ r p q. (λ i old. patch_pcnt-build_pcnt on_null i r old p.0 q p.1, p.1))
        h.valid.5.1 h.pcnt)

pub restore_pwm :
    (on_null : Option Json) (v : Cache) (s : Import)
    → IsPortable v
    → s.config.initialised ≡ true
    → length s.config.cache.pwm ≡ pwm_channel.count
    → apply_found "pwm" pwm_channel patch_pwm_record
        (some (array (items_of (build_pwm on_null) 0 v.pwm)))
        s
      ≡ some (stored_in pwm_channel v.pwm pwm_channel.count s)
unfolding pwm_channel build_pwm pwm_members
restore_pwm on_null v s h on full =
    apply_array_lem "pwm" pwm_channel patch_pwm_record (pwm_members on_null) (omega arith)
      (λ i x. refl) v.pwm s on full h.valid.6.0
      (all_both v.pwm (λ r p q. (λ i old. patch_pwm-build_pwm on_null i r old p.0 q p.1, p.1))
        h.valid.6.1 h.pwm)
