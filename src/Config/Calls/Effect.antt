-- ===== src/Config/Calls/Effect.antt =====
-- The effect of one setter call on the state.
use config_wp.Base.{
  ℕ, ◌≡◌, refl, sym, subst, Bool, true, not, Option, some, none, set, if◌then◌else◌, Bool-cases,
  inl, inr,
}
use config_wp.Types.{SystemConfig}
use config_wp.Config.State.{Config, ConfigStatus, err_not_initialised}
use config_wp.Config.Decode.{with_system}
use config_wp.Config.Validate.{validate_system}
use config_wp.Config.Access.{config_set_system, set_system_checked}
use config_wp.Config.Access.Channel.{Channel}
use config_wp.Config.Access.Laws.{refuses, stores, set_outcome}

-- Whatever holds of the state and of the one with a valid record stored, holds after a setter.
pub set_effect :
    {A : Type 0} (k : Channel A) (c : Config) (idx : ℕ) (input : Option A) (Q : Config → Type 0)
    → Q c
    → ((r : A) → input ≡ some r → k.validate r ≡ true → Q (k.put c (set (k.field c) idx r)))
    → Q (k.set_at c idx input).1
set_effect k c idx input Q same stored = elim (set_outcome k c idx input) [
  | refuses status failed e ↦ subst (λ (x : ConfigStatus × Config). Q x.1) (sym e) same
  | stores r given on fits valid e ↦
      subst (λ (x : ConfigStatus × Config). Q x.1) (sym e) (stored r given valid)
]

pub set_system_effect :
    (c : Config) (input : Option SystemConfig) (Q : Config → Type 0)
    → Q c
    → ((r : SystemConfig) → input ≡ some r → validate_system r ≡ true → Q (with_system c r))
    → Q (config_set_system c input).1
unfolding config_set_system
set_system_effect c input Q same stored = elim (Bool-cases c.initialised) [
  | inl on ↦
      subst
        (λ (b : Bool). Q (if not b then (err_not_initialised, c) else set_system_checked c input).1)
        (sym on) (checked input stored)
  | inr off ↦
      subst
        (λ (b : Bool). Q (if not b then (err_not_initialised, c) else set_system_checked c input).1)
        (sym off) same
]
  where
    checked :
        (input : Option SystemConfig)
        → ((r : SystemConfig) → input ≡ some r → validate_system r ≡ true → Q (with_system c r))
        → Q (set_system_checked c input).1
    checked none stored = same
    checked (some r) stored = elim (Bool-cases (validate_system r)) [
      | inl valid ↦ rw valid (stored r refl valid)
      | inr bad ↦ rw bad same
    ]
