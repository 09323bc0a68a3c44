-- ===== src/Json/Calls/Targets.antt =====
-- The seven arrays as targets of the import.
use config_wp.Base.{refl}
use config_wp.Types.Wire.{IsWireDi, IsWireDo, IsWireTc, IsWireAi, IsWireAo, IsWirePcnt, IsWirePwm}
use config_wp.Config.Access.Channel.{
  di_channel, do_channel, tc_channel, ai_channel, ao_channel, pcnt_channel, pwm_channel,
}
use config_wp.Config.Calls.{on_di, on_do, on_tc, on_ai, on_ao, on_pcnt, on_pwm}
use config_wp.Config.Calls.Keeps.{fields}
use config_wp.Json.Patch.Records.{
  patch_di_record, patch_do_record, patch_tc_record, patch_ai_record, patch_ao_record,
  patch_pcnt_record, patch_pwm_record,
}
use config_wp.Json.Wire.Inputs.{
  patch_di-IsWireDi, patch_do-IsWireDo, patch_tc-IsWireTc, patch_ai-IsWireAi,
}
use config_wp.Json.Wire.Outputs.{patch_ao-IsWireAo, patch_pcnt-IsWirePcnt, patch_pwm-IsWirePwm}
use config_wp.Json.Calls.Item.{Target}

pub di-Target : Target di_channel patch_di_record
unfolding di_channel
di-Target = record {
  call = on_di;
  Wire = IsWireDi;
  is_call = λ c idx input. refl;
  typed = λ idx r h. h;
  stored = λ c h. fields IsWireDi di_channel.validate c.cache.di h.0.1;
  full = λ c h. h.0.0;
  kept = patch_di-IsWireDi;
}

pub do-Target : Target do_channel patch_do_record
unfolding do_channel
do-Target = record {
  call = on_do;
  Wire = IsWireDo;
  is_call = λ c idx input. refl;
  typed = λ idx r h. h;
  stored = λ c h. fields IsWireDo do_channel.validate c.cache.do_ h.1.1;
  full = λ c h. h.1.0;
  kept = patch_do-IsWireDo;
}

pub tc-Target : Target tc_channel patch_tc_record
unfolding tc_channel
tc-Target = record {
  call = on_tc;
  Wire = IsWireTc;
  is_call = λ c idx input. refl;
  typed = λ idx r h. h;
  stored = λ c h. fields IsWireTc tc_channel.validate c.cache.tc h.2.1;
  full = λ c h. h.2.0;
  kept = patch_tc-IsWireTc;
}

pub ai-Target : Target ai_channel patch_ai_record
unfolding ai_channel
ai-Target = record {
  call = on_ai;
  Wire = IsWireAi;
  is_call = λ c idx input. refl;
  typed = λ idx r h. h;
  stored = λ c h. fields IsWireAi ai_channel.validate c.cache.ai h.3.1;
  full = λ c h. h.3.0;
  kept = patch_ai-IsWireAi;
}

pub ao-Target : Target ao_channel patch_ao_record
unfolding ao_channel
ao-Target = record {
  call = on_ao;
  Wire = IsWireAo;
  is_call = λ c idx input. refl;
  typed = λ idx r h. h;
  stored = λ c h. fields IsWireAo ao_channel.validate c.cache.ao h.4.1;
  full = λ c h. h.4.0;
  kept = patch_ao-IsWireAo;
}

pub pcnt-Target : Target pcnt_channel patch_pcnt_record
unfolding pcnt_channel
pcnt-Target = record {
  call = on_pcnt;
  Wire = IsWirePcnt;
  is_call = λ c idx input. refl;
  typed = λ idx r h. h;
  stored = λ c h. fields IsWirePcnt pcnt_channel.validate c.cache.pcnt h.5.1;
  full = λ c h. h.5.0;
  kept = patch_pcnt-IsWirePcnt;
}

pub pwm-Target : Target pwm_channel patch_pwm_record
unfolding pwm_channel
pwm-Target = record {
  call = on_pwm;
  Wire = IsWirePwm;
  is_call = λ c idx input. refl;
  typed = λ idx r h. h;
  stored = λ c h. fields IsWirePwm pwm_channel.validate c.cache.pwm h.6.1;
  full = λ c h. h.6.0;
  kept = patch_pwm-IsWirePwm;
}
