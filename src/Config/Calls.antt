-- ===== src/Config/Calls.antt =====
-- Sequences of setter calls, from any task and in any order.
pub mod Effect
pub mod Keeps
use config_wp.Base.{
  ℕ, ◌≡◌, refl, sym, ◌∙◌, subst, Bool, true, not, Option, some, none, List, [], ◌∷◌, length, set,
  All, length-set, All-set, if◌then◌else◌, Bool-cases, inl, inr,
}
use config_wp.Types.{
  DiConfig, DoConfig, TcConfig, AiConfig, AoConfig, PcntConfig, PwmConfig, SystemConfig,
  config_num_di, config_num_do, config_num_tc, config_num_ai, config_num_ao, config_num_pcnt,
  config_num_pwm,
}
use config_wp.Types.Wire.{
  IsWireDi, IsWireDo, IsWireTc, IsWireAi, IsWireAo, IsWirePcnt, IsWirePwm, IsWireSystem,
}
use config_wp.Config.State.{Cache, Config, ConfigStatus, err_not_initialised}
use config_wp.Config.Decode.{with_system}
use config_wp.Config.Validate.{
  validate_di, validate_do, validate_tc, validate_ai, validate_ao, validate_pcnt, validate_pwm,
  validate_system,
}
use config_wp.Config.Access.{
  config_set_di, config_set_do, config_set_tc, config_set_ai, config_set_ao, config_set_pcnt,
  config_set_pwm, config_set_system, set_system_checked,
}
use config_wp.Config.Access.Channel.{
  Channel, di_channel, do_channel, tc_channel, ai_channel, ao_channel, pcnt_channel, pwm_channel,
}
use config_wp.Config.Access.Laws.{refuses, stores, set_outcome}
use config_wp.Config.Stream.{IsWireCache}

-- A call of a setter, with what the caller points to.
pub data SetCall : Type 0 where
  on_di : ℕ → Option DiConfig → SetCall
  on_do : ℕ → Option DoConfig → SetCall
  on_tc : ℕ → Option TcConfig → SetCall
  on_ai : ℕ → Option AiConfig → SetCall
  on_ao : ℕ → Option AoConfig → SetCall
  on_pcnt : ℕ → Option PcntConfig → SetCall
  on_pwm : ℕ → Option PwmConfig → SetCall
  on_system : Option SystemConfig → SetCall

abbrev pub run_call : SetCall → Config → ConfigStatus × Config
run_call (on_di idx input) c = config_set_di c idx input
run_call (on_do idx input) c = config_set_do c idx input
run_call (on_tc idx input) c = config_set_tc c idx input
run_call (on_ai idx input) c = config_set_ai c idx input
run_call (on_ao idx input) c = config_set_ao c idx input
run_call (on_pcnt idx input) c = config_set_pcnt c idx input
run_call (on_pwm idx input) c = config_set_pwm c idx input
run_call (on_system input) c = config_set_system c input

abbrev pub run_calls : List SetCall → Config → Config
run_calls [] c = c
run_calls (call ∷ calls) c = run_calls calls (run_call call c).1

abbrev pub OnSome : {A : Type 0} → (A → Type 0) → Option A → Type 0
OnSome P none = Unit
OnSome P (some r) = P r

-- The record, if there is one, is in the ranges of its C types, with a terminated name and enums
-- below 256.
abbrev pub IsTyped : SetCall → Type 0
IsTyped (on_di idx input) = OnSome IsWireDi input
IsTyped (on_do idx input) = OnSome IsWireDo input
IsTyped (on_tc idx input) = OnSome IsWireTc input
IsTyped (on_ai idx input) = OnSome IsWireAi input
IsTyped (on_ao idx input) = OnSome IsWireAo input
IsTyped (on_pcnt idx input) = OnSome IsWirePcnt input
IsTyped (on_pwm idx input) = OnSome IsWirePwm input
IsTyped (on_system input) = OnSome IsWireSystem input

-- A full array of records that are in range and that the validator accepts.
abbrev pub IsArray : {A : Type 0} → (A → Type 0) → (A → Bool) → ℕ → List A → Type 0
IsArray P validate n xs = (length xs ≡ n) × All (λ r. P r × (validate r ≡ true)) xs

-- A cache of full arrays, every record in range and valid.
abbrev pub IsValidCache : Cache → Type 0
IsValidCache v =
    IsArray IsWireDi validate_di config_num_di v.di
    × IsArray IsWireDo validate_do config_num_do v.do_
    × IsArray IsWireTc validate_tc config_num_tc v.tc
    × IsArray IsWireAi validate_ai config_num_ai v.ai
    × IsArray IsWireAo validate_ao config_num_ao v.ao
    × IsArray IsWirePcnt validate_pcnt config_num_pcnt v.pcnt
    × IsArray IsWirePwm validate_pwm config_num_pwm v.pwm
    × IsWireSystem v.system
    × (validate_system v.system ≡ true)

-- The cache is valid, and the rest of the state is that of `c`.
abbrev pub Keeps : Config → Config → Type 0
Keeps c d =
    IsValidCache d.cache
    × (d.unknown ≡ c.unknown)
    × (d.unknown_used ≡ c.unknown_used)
    × (d.blob_buf ≡ c.blob_buf)
    × (d.initialised ≡ c.initialised)
