-- ===== src/Config/Access/Channel.antt =====
-- The seven pairs of a getter and a setter, as one interface: what they promise of any array.
use config_wp.Base.{ℕ, ◌≡◌, refl, Bool, Option, List, set}
use config_wp.Types.{
  DiConfig, DoConfig, TcConfig, AiConfig, AoConfig, PcntConfig, PwmConfig, config_num_di,
  config_num_do, config_num_tc, config_num_ai, config_num_ao, config_num_pcnt, config_num_pwm,
}
use config_wp.Config.State.{Config, ConfigStatus}
use config_wp.Config.Decode.{with_di, with_do, with_tc, with_ai, with_ao, with_pcnt, with_pwm}
use config_wp.Config.Validate.{
  validate_di, validate_do, validate_tc, validate_ai, validate_ao, validate_pcnt, validate_pwm,
}
use config_wp.Config.Access.{
  Got, get_channel, set_channel, config_get_di, config_set_di, config_get_do, config_set_do,
  config_get_tc, config_set_tc, config_get_ai, config_set_ai, config_get_ao, config_set_ao,
  config_get_pcnt, config_set_pcnt, config_get_pwm, config_set_pwm,
}

-- An array of the cache with its getter, its setter and its validator.
pub record Channel (A : Type 0) : Type 0 where
  pub count : ℕ
  pub validate : A → Bool
  pub field : Config → List A
  pub put : Config → List A → Config
  pub get_at : Config → ℕ → Bool → Got A
  pub set_at : Config → ℕ → Option A → ConfigStatus × Config
  pub field-put : (c : Config) (xs : List A) → field (put c xs) ≡ xs
  pub put-field : (c : Config) → put c (field c) ≡ c
  pub put-put : (c : Config) (xs ys : List A) → put (put c xs) ys ≡ put c ys
  pub put-initialised : (c : Config) (xs : List A) → (put c xs).initialised ≡ c.initialised
  pub get_is :
      (c : Config) (idx : ℕ) (has_out : Bool)
      → get_at c idx has_out ≡ get_channel c count (field c) idx has_out
  pub set_is :
      (c : Config) (idx : ℕ) (input : Option A)
      → set_at c idx input
        ≡ set_channel c count validate (λ r. put c (set (field c) idx r)) idx input

unfoldable pub di_channel : Channel DiConfig
unfolding config_get_di config_set_di
di_channel = record {
  count = config_num_di;
  validate = validate_di;
  field = λ c. c.cache.di;
  put = with_di;
  get_at = config_get_di;
  set_at = config_set_di;
  field-put = λ c xs. refl;
  put-field = λ c. refl;
  put-put = λ c xs ys. refl;
  put-initialised = λ c xs. refl;
  get_is = λ c idx has_out. refl;
  set_is = λ c idx input. refl;
}

unfoldable pub do_channel : Channel DoConfig
unfolding config_get_do config_set_do
do_channel = record {
  count = config_num_do;
  validate = validate_do;
  field = λ c. c.cache.do_;
  put = with_do;
  get_at = config_get_do;
  set_at = config_set_do;
  field-put = λ c xs. refl;
  put-field = λ c. refl;
  put-put = λ c xs ys. refl;
  put-initialised = λ c xs. refl;
  get_is = λ c idx has_out. refl;
  set_is = λ c idx input. refl;
}

unfoldable pub tc_channel : Channel TcConfig
unfolding config_get_tc config_set_tc
tc_channel = record {
  count = config_num_tc;
  validate = validate_tc;
  field = λ c. c.cache.tc;
  put = with_tc;
  get_at = config_get_tc;
  set_at = config_set_tc;
  field-put = λ c xs. refl;
  put-field = λ c. refl;
  put-put = λ c xs ys. refl;
  put-initialised = λ c xs. refl;
  get_is = λ c idx has_out. refl;
  set_is = λ c idx input. refl;
}

unfoldable pub ai_channel : Channel AiConfig
unfolding config_get_ai config_set_ai
ai_channel = record {
  count = config_num_ai;
  validate = validate_ai;
  field = λ c. c.cache.ai;
  put = with_ai;
  get_at = config_get_ai;
  set_at = config_set_ai;
  field-put = λ c xs. refl;
  put-field = λ c. refl;
  put-put = λ c xs ys. refl;
  put-initialised = λ c xs. refl;
  get_is = λ c idx has_out. refl;
  set_is = λ c idx input. refl;
}

unfoldable pub ao_channel : Channel AoConfig
unfolding config_get_ao config_set_ao
ao_channel = record {
  count = config_num_ao;
  validate = validate_ao;
  field = λ c. c.cache.ao;
  put = with_ao;
  get_at = config_get_ao;
  set_at = config_set_ao;
  field-put = λ c xs. refl;
  put-field = λ c. refl;
  put-put = λ c xs ys. refl;
  put-initialised = λ c xs. refl;
  get_is = λ c idx has_out. refl;
  set_is = λ c idx input. refl;
}

unfoldable pub pcnt_channel : Channel PcntConfig
unfolding config_get_pcnt config_set_pcnt
pcnt_channel = record {
  count = config_num_pcnt;
  validate = validate_pcnt;
  field = λ c. c.cache.pcnt;
  put = with_pcnt;
  get_at = config_get_pcnt;
  set_at = config_set_pcnt;
  field-put = λ c xs. refl;
  put-field = λ c. refl;
  put-put = λ c xs ys. refl;
  put-initialised = λ c xs. refl;
  get_is = λ c idx has_out. refl;
  set_is = λ c idx input. refl;
}

unfoldable pub pwm_channel : Channel PwmConfig
unfolding config_get_pwm config_set_pwm
pwm_channel = record {
  count = config_num_pwm;
  validate = validate_pwm;
  field = λ c. c.cache.pwm;
  put = with_pwm;
  get_at = config_get_pwm;
  set_at = config_set_pwm;
  field-put = λ c xs. refl;
  put-field = λ c. refl;
  put-put = λ c xs ys. refl;
  put-initialised = λ c xs. refl;
  get_is = λ c idx has_out. refl;
  set_is = λ c idx input. refl;
}
