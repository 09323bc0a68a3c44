-- ===== src/Config/State.antt =====
-- The module's state, and the status codes of src/application/config.h. An array is the list of
-- its elements.
use config_wp.Base.{ℕ, Bool, List}
use config_wp.Crc32.{Crc32}
use config_wp.Storage.{Storage}
use config_wp.Types.{
  DiConfig, DoConfig, TcConfig, AiConfig, AoConfig, PcntConfig, PwmConfig, SystemConfig,
}

pub data ConfigStatus : Type 0 where
  config_ok err_not_initialised err_index err_invalid err_codec err_storage err_too_large
        err_internal :
      ConfigStatus

-- config_cache_t
pub record Cache : Type 0 where
  pub di : List DiConfig
  pub do_ : List DoConfig
  pub tc : List TcConfig
  pub ai : List AiConfig
  pub ao : List AoConfig
  pub pcnt : List PcntConfig
  pub pwm : List PwmConfig
  pub system : SystemConfig

abbrev pub unknown_buf_bytes : ℕ
unknown_buf_bytes = 1024

-- s_cache, s_unknown, s_unknown_used, s_blob_buf and s_initialised.
pub record Config : Type 0 where
  pub cache : Cache
  pub unknown : List ℕ
  pub unknown_used : ℕ
  pub blob_buf : List ℕ
  pub initialised : Bool

-- The manager with the modules that it calls and their states.
pub record World : Type 0 where
  pub config : Config
  pub crc : Crc32
  pub storage : Storage
