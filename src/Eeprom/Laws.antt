-- ===== src/Eeprom/Laws.antt =====
-- What a request does, whichever its type, parameter and value: it is refused and changes nothing,
-- or the record that it makes passed its validator.
use config_wp.Base.{
  ℕ, ◌≡◌, ◌≢◌, ◌⊎◌, inl, inr, refl, ap, sym, ◌∙◌, subst, Bool, true, not, Option, some, none, List,
  length, set, All, get_elem?-lt, length-set, All-set, leb, leb→lt, if◌then◌else◌, Bool-cases,
  arith,
}
use config_wp.Types.{
  SystemConfig, config_num_di, config_num_do, config_num_tc, config_num_ai, config_num_ao,
  config_num_pcnt, config_num_pwm,
}
use config_wp.Config.State.{Cache, Config, ConfigStatus, config_ok, err_not_initialised, err_index}
use config_wp.Config.Validate.{
  validate_di, validate_do, validate_tc, validate_ai, validate_ao, validate_pcnt, validate_pwm,
  validate_system,
}
use config_wp.Config.Access.{
  refused, got, copied, get_channel, config_get_system, config_set_system, set_system_checked,
}
use config_wp.Config.Access.Channel.{
  Channel, di_channel, do_channel, tc_channel, ai_channel, ao_channel, pcnt_channel, pwm_channel,
}
use config_wp.Config.Access.Laws.{get_copied, refuses, stores, set_outcome}
use config_wp.Eeprom.{
  EepromValue, apply_with, apply_changed, apply_di, change_di, apply_do, change_do, apply_tc,
  change_tc, apply_ai, change_ai, apply_ao, change_ao, apply_pcnt, change_pcnt, apply_pwm,
  change_pwm, apply_system, change_system,
}
use config_wp.Eeprom.Requests.{
  EepromConfigType, system, type_count, io_di, io_do, io_tc, io_ai, io_ao, io_pcnt, io_pwm,
  apply_field,
}

-- Full arrays of records that the validators accept.
abbrev pub IsAccepted : Cache → Type 0
IsAccepted v =
    ((length v.di ≡ config_num_di) × All (λ r. validate_di r ≡ true) v.di)
    × ((length v.do_ ≡ config_num_do) × All (λ r. validate_do r ≡ true) v.do_)
    × ((length v.tc ≡ config_num_tc) × All (λ r. validate_tc r ≡ true) v.tc)
    × ((length v.ai ≡ config_num_ai) × All (λ r. validate_ai r ≡ true) v.ai)
    × ((length v.ao ≡ config_num_ao) × All (λ r. validate_ao r ≡ true) v.ao)
    × ((length v.pcnt ≡ config_num_pcnt) × All (λ r. validate_pcnt r ≡ true) v.pcnt)
    × ((length v.pwm ≡ config_num_pwm) × All (λ r. validate_pwm r ≡ true) v.pwm)
    × (validate_system v.system ≡ true)

-- What a request did: it was refused and changed nothing, or it was accepted and the records are
-- still ones that the validators accept.
abbrev pub Outcome : Config → ConfigStatus × Config → Type 0
Outcome c (status, d) =
    ((status ≢ config_ok) × (d ≡ c)) ⊎ ((status ≡ config_ok) × IsAccepted d.cache)

abbrev pub Applies : Config → Option (ConfigStatus × Config) → Type 0
Applies c o = (r : ConfigStatus × Config) × (o ≡ some r) × Outcome c r

-- A getter of a full array never reads past it.
get-Returns :
    {A : Type 0} (k : Channel A) (c : Config) (idx : ℕ)
    → length (k.field c) ≡ k.count
    → ((status : ConfigStatus) × (status ≢ config_ok) × (k.get_at c idx true ≡ refused status))
      ⊎ ((r : A) × (k.get_at c idx true ≡ got r))
unfolding get_channel
get-Returns k c idx full = elim (Bool-cases c.initialised) [
  | inr off ↦ inl (err_not_initialised, (λ e. cc), k.get_is c idx true ∙ rw (off, get_channel) refl)
  | inl on ↦ elim (Bool-cases (leb k.count idx)) [
    | inl over ↦ inl (err_index, (λ e. cc), k.get_is c idx true ∙ rw (on, over, get_channel) refl)
    | inr fits ↦
        let (r, there) = get_elem?-lt (k.field c) idx (omega (arith, leb→lt k.count idx fits)) in
        inr (
          r,
          k.get_is c idx true
              ∙ get_copied c k.count (k.field c) idx on (leb→lt k.count idx fits)
              ∙ ap copied there,
        )
  ]
]

set-Outcome :
    {A : Type 0} (k : Channel A) (c : Config) (idx : ℕ) (input : Option A)
    → ((r : A) → k.validate r ≡ true → IsAccepted (k.put c (set (k.field c) idx r)).cache)
    → Outcome c (k.set_at c idx input)
set-Outcome k c idx input stored = elim (set_outcome k c idx input) [
  | refuses status failed e ↦ subst (Outcome c) (sym e) (inl (failed, refl))
  | stores r given on fits valid e ↦ subst (Outcome c) (sym e) (inr (refl, stored r valid))
]

changed-Outcome :
    {A : Type 0} (c : Config) (o : Option A) (put : Option A → ConfigStatus × Config)
    → ((input : Option A) → Outcome c (put input))
    → Outcome c (apply_changed c o put)
changed-Outcome c none put h = inl ((λ e. cc), refl)
changed-Outcome c (some r) put h = h (some r)

apply-Applies :
    {A : Type 0} (k : Channel A) (c : Config) (idx : ℕ) (change : A → Option A)
    → length (k.field c) ≡ k.count
    → ((r : A) → k.validate r ≡ true → IsAccepted (k.put c (set (k.field c) idx r)).cache)
    → Applies c (apply_with c (k.get_at c idx true) change (k.set_at c idx))
apply-Applies k c idx change full stored = elim (get-Returns k c idx full) [
  | inl (status, failed, e) ↦ rw e ((status, c), refl, inl (failed, refl))
  | inr (r, e) ↦ rw e (
    _,
    refl,
    changed-Outcome c (change r) (k.set_at c idx) (λ input. set-Outcome k c idx input stored),
  )
]

accepted-set :
    {A : Type 0} (validate : A → Bool) (n : ℕ) (xs : List A) (i : ℕ) (r : A)
    → validate r ≡ true
    → (length xs ≡ n) × All (λ r. validate r ≡ true) xs
    → (length (set xs i r) ≡ n) × All (λ r. validate r ≡ true) (set xs i r)
accepted-set validate n xs i r valid (full, all) =
    (length-set xs i r ∙ full, All-set (λ r. validate r ≡ true) xs i r valid all)

-- apply_system, by whether the manager is initialised.
abbrev system_applied :
    Config → (SystemConfig → Option SystemConfig) → Bool → Option (ConfigStatus × Config)
system_applied c change on =
    apply_with c (if not on then refused err_not_initialised else got c.cache.system) change
      (λ input. if not on then (err_not_initialised, c) else set_system_checked c input)

system-Applies :
    (c : Config) (change : SystemConfig → Option SystemConfig)
    → IsAccepted c.cache
    → Applies c (apply_with c (config_get_system c true) change (config_set_system c))
unfolding config_get_system config_set_system
system-Applies c change h = elim (Bool-cases c.initialised) [
  | inr off ↦
      subst (λ (b : Bool). Applies c (system_applied c change b)) (sym off)
        ((err_not_initialised, c), refl, inl ((λ e. cc), refl))
  | inl on ↦
      subst (λ (b : Bool). Applies c (system_applied c change b)) (sym on)
        (_, refl, changed-Outcome c (change c.cache.system) (set_system_checked c) checked)
]
  where
    checked : (input : Option SystemConfig) → Outcome c (set_system_checked c input)
    checked none = inl ((λ e. cc), refl)
    checked (some r) = elim (Bool-cases (validate_system r)) [
      | inl valid ↦ rw valid (inr (refl, (h.0, h.1, h.2, h.3, h.4, h.5, h.6, valid)))
      | inr bad ↦ rw bad (inl ((λ e. cc), refl))
    ]

pub apply_field-Applies :
    (c : Config) (type : EepromConfigType) (item param : ℕ) (v : EepromValue)
    → IsAccepted c.cache
    → Applies c (apply_field c type item param v)
unfolding apply_field apply_di di_channel apply_do do_channel apply_tc tc_channel apply_ai
    ai_channel apply_ao ao_channel apply_pcnt pcnt_channel apply_pwm pwm_channel apply_system
apply_field-Applies c io_di item param v h =
    apply-Applies di_channel c item (change_di param v) h.0.0 λ r valid. (
      accepted-set validate_di config_num_di c.cache.di item r valid h.0,
      h.1,
      h.2,
      h.3,
      h.4,
      h.5,
      h.6,
      h.7,
    )
apply_field-Applies c io_do item param v h =
    apply-Applies do_channel c item (change_do param v) h.1.0 λ r valid. (
      h.0,
      accepted-set validate_do config_num_do c.cache.do_ item r valid h.1,
      h.2,
      h.3,
      h.4,
      h.5,
      h.6,
      h.7,
    )
apply_field-Applies c io_tc item param v h =
    apply-Applies tc_channel c item (change_tc param v) h.2.0 λ r valid. (
      h.0,
      h.1,
      accepted-set validate_tc config_num_tc c.cache.tc item r valid h.2,
      h.3,
      h.4,
      h.5,
      h.6,
      h.7,
    )
apply_field-Applies c io_ai item param v h =
    apply-Applies ai_channel c item (change_ai param v) h.3.0 λ r valid. (
      h.0,
      h.1,
      h.2,
      accepted-set validate_ai config_num_ai c.cache.ai item r valid h.3,
      h.4,
      h.5,
      h.6,
      h.7,
    )
apply_field-Applies c io_ao item param v h =
    apply-Applies ao_channel c item (change_ao param v) h.4.0 λ r valid. (
      h.0,
      h.1,
      h.2,
      h.3,
      accepted-set validate_ao config_num_ao c.cache.ao item r valid h.4,
      h.5,
      h.6,
      h.7,
    )
apply_field-Applies c io_pcnt item param v h =
    apply-Applies pcnt_channel c item (change_pcnt param v) h.5.0 λ r valid. (
      h.0,
      h.1,
      h.2,
      h.3,
      h.4,
      accepted-set validate_pcnt config_num_pcnt c.cache.pcnt item r valid h.5,
      h.6,
      h.7,
    )
apply_field-Applies c io_pwm item param v h =
    apply-Applies pwm_channel c item (change_pwm param v) h.6.0 λ r valid. (
      h.0,
      h.1,
      h.2,
      h.3,
      h.4,
      h.5,
      accepted-set validate_pwm config_num_pwm c.cache.pwm item r valid h.6,
      h.7,
    )
apply_field-Applies c system item param v h = system-Applies c (change_system param v) h
apply_field-Applies c type_count item param v h = (_, refl, inl ((λ e. cc), refl))
