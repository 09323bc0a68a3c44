-- ===== src/Config/Access.antt =====
-- The getters and setters. They differ in the array, its length and the validator alone.
pub mod Channel
pub mod Laws
use config_wp.Base.{
  ℕ, Bool, true, false, Option, none, some, List, get_elem?, set, leb, not, if◌then◌else◌,
}
use config_wp.Types.{
  DiConfig, DoConfig, TcConfig, AiConfig, AoConfig, PcntConfig, PwmConfig, SystemConfig,
  config_num_di, config_num_do, config_num_tc, config_num_ai, config_num_ao, config_num_pcnt,
  config_num_pwm,
}
use config_wp.Config.State.{
  Config, ConfigStatus, config_ok, err_not_initialised, err_index, err_invalid,
}
use config_wp.Config.Decode.{
  with_di, with_do, with_tc, with_ai, with_ao, with_pcnt, with_pwm, with_system,
}
use config_wp.Config.Validate.{
  validate_di, validate_do, validate_tc, validate_ai, validate_ao, validate_pcnt, validate_pwm,
  validate_system,
}

-- A refusal, the record that is copied out, or a read past the array.
pub data Got (A : Type 0) : Type 0 where
  refused : ConfigStatus → Got A
  got : A → Got A
  fault : Got A

abbrev pub copied : {A : Type 0} → Option A → Got A
copied none = fault
copied (some r) = got r

unfoldable pub get_channel : {A : Type 0} → Config → ℕ → List A → ℕ → Bool → Got A
get_channel c count records idx has_out =
    if not c.initialised
    then refused err_not_initialised
    else if not has_out
    then refused err_invalid
    else if leb count idx
    then refused err_index
    else copied (get_elem? records idx)

-- The checks of a setter on the record that `in` points to.
abbrev pub set_checked :
    {A : Type 0} → Config → ℕ → (A → Bool) → (A → Config) → ℕ → Option A → ConfigStatus × Config
set_checked c count validate put idx none = (err_invalid, c)
set_checked c count validate put idx (some r) =
    if leb count idx
    then (err_index, c)
    else if not (validate r)
    then (err_invalid, c)
    else (config_ok, put r)

unfoldable pub set_channel :
    {A : Type 0} → Config → ℕ → (A → Bool) → (A → Config) → ℕ → Option A → ConfigStatus × Config
set_channel c count validate put idx input =
    if not c.initialised
    then (err_not_initialised, c)
    else set_checked c count validate put idx input

unfoldable pub config_get_di : Config → ℕ → Bool → Got DiConfig
unfolding get_channel
config_get_di c idx has_out = get_channel c config_num_di c.cache.di idx has_out

unfoldable pub config_set_di : Config → ℕ → Option DiConfig → ConfigStatus × Config
unfolding set_channel
config_set_di c idx input =
    set_channel c config_num_di validate_di (λ r. with_di c (set c.cache.di idx r)) idx input

unfoldable pub config_get_do : Config → ℕ → Bool → Got DoConfig
unfolding get_channel
config_get_do c idx has_out = get_channel c config_num_do c.cache.do_ idx has_out

unfoldable pub config_set_do : Config → ℕ → Option DoConfig → ConfigStatus × Config
unfolding set_channel
config_set_do c idx input =
    set_channel c config_num_do validate_do (λ r. with_do c (set c.cache.do_ idx r)) idx input

unfoldable pub config_get_tc : Config → ℕ → Bool → Got TcConfig
unfolding get_channel
config_get_tc c idx has_out = get_channel c config_num_tc c.cache.tc idx has_out

unfoldable pub config_set_tc : Config → ℕ → Option TcConfig → ConfigStatus × Config
unfolding set_channel
config_set_tc c idx input =
    set_channel c config_num_tc validate_tc (λ r. with_tc c (set c.cache.tc idx r)) idx input

unfoldable pub config_get_ai : Config → ℕ → Bool → Got AiConfig
unfolding get_channel
config_get_ai c idx has_out = get_channel c config_num_ai c.cache.ai idx has_out

unfoldable pub config_set_ai : Config → ℕ → Option AiConfig → ConfigStatus × Config
unfolding set_channel
config_set_ai c idx input =
    set_channel c config_num_ai validate_ai (λ r. with_ai c (set c.cache.ai idx r)) idx input

unfoldable pub config_get_ao : Config → ℕ → Bool → Got AoConfig
unfolding get_channel
config_get_ao c idx has_out = get_channel c config_num_ao c.cache.ao idx has_out

unfoldable pub config_set_ao : Config → ℕ → Option AoConfig → ConfigStatus × Config
unfolding set_channel
config_set_ao c idx input =
    set_channel c config_num_ao validate_ao (λ r. with_ao c (set c.cache.ao idx r)) idx input

unfoldable pub config_get_pcnt : Config → ℕ → Bool → Got PcntConfig
unfolding get_channel
config_get_pcnt c idx has_out = get_channel c config_num_pcnt c.cache.pcnt idx has_out

unfoldable pub config_set_pcnt : Config → ℕ → Option PcntConfig → ConfigStatus × Config
unfolding set_channel
config_set_pcnt c idx input =
    set_channel c config_num_pcnt validate_pcnt (λ r. with_pcnt c (set c.cache.pcnt idx r)) idx
      input

unfoldable pub config_get_pwm : Config → ℕ → Bool → Got PwmConfig
unfolding get_channel
config_get_pwm c idx has_out = get_channel c config_num_pwm c.cache.pwm idx has_out

unfoldable pub config_set_pwm : Config → ℕ → Option PwmConfig → ConfigStatus × Config
unfolding set_channel
config_set_pwm c idx input =
    set_channel c config_num_pwm validate_pwm (λ r. with_pwm c (set c.cache.pwm idx r)) idx input

unfoldable pub config_get_system : Config → Bool → Got SystemConfig
config_get_system c has_out =
    if not c.initialised
    then refused err_not_initialised
    else if not has_out
    then refused err_invalid
    else got c.cache.system

abbrev pub set_system_checked : Config → Option SystemConfig → ConfigStatus × Config
set_system_checked c none = (err_invalid, c)
set_system_checked c (some r) =
    if not (validate_system r) then (err_invalid, c) else (config_ok, with_system c r)

unfoldable pub config_set_system : Config → Option SystemConfig → ConfigStatus × Config
config_set_system c input =
    if not c.initialised then (err_not_initialised, c) else set_system_checked c input
