-- ===== src/Json/Export.antt =====
-- The export: config_export_json and its macro EMIT_ARRAY. `none` is a read past an array of the
-- cache. The parameters are cJSON's: `print`, the text of a tree or a failure, and `on_null`.
use Prim.Native.String.{String}
use config_wp.Base.{
  ℕ, zero, suc, ◌+◌, Bool, true, not, ◌||◌, Option, none, some, List, length, ltb, ◌==◌,
  if◌then◌else◌,
}
use config_wp.Base.Int.{pos}
use config_wp.Types.{SystemConfig}
use config_wp.Config.State.{
  Config, ConfigStatus, config_ok, err_invalid, err_internal, err_too_large,
}
use config_wp.Config.Access.{Got, refused, got, fault, config_get_system}
use config_wp.Config.Access.Channel.{
  Channel, di_channel, do_channel, tc_channel, ai_channel, ao_channel, pcnt_channel, pwm_channel,
}
use config_wp.Json.{
  Json, Members, Items, no_items, item, no_members, member, array, object, number, of_int,
}
use config_wp.Json.Build.{
  build_di, build_do, build_tc, build_ai, build_ao, build_pcnt, build_pwm, build_system,
}
use config_wp.Json.Import.{◌>>=◌}

-- An item for what the getter copied, and none where it refused.
abbrev pub export_got : {A : Type 0} → (A → Json) → Got A → Items → Option Items
export_got build (refused status) rest = some rest
export_got build (got v) rest = some (item (build v) rest)
export_got build fault rest = none

-- The loop from index `i`, with `n` turns left.
unfoldable pub export_items :
    {A : Type 0} → Channel A → (ℕ → A → Json) → Config → ℕ → ℕ → Option Items
export_items k build c zero i = some no_items
export_items k build c (suc n) i = do
  rest ← export_items k build c n (suc i)
  export_got (build i) (k.get_at c i true) rest

unfoldable pub export_array :
    {A : Type 0} → String → Channel A → (ℕ → A → Json) → Config → Members → Option Members
unfolding export_items
export_array name k build c rest = do
  items ← export_items k build c k.count 0
  some (member name (array items) rest)

abbrev pub export_system : Option Json → Got SystemConfig → Members → Members
export_system on_null (got s) rest = member "system" (build_system on_null s) rest
export_system on_null _ rest = rest

-- The root, built from its last member to its first.
unfoldable pub export_members : Option Json → Config → Option Members
unfolding export_array
export_members on_null c = do
  pwm ← export_array "pwm" pwm_channel (build_pwm on_null) c no_members
  pcnt ← export_array "pcnt" pcnt_channel (build_pcnt on_null) c pwm
  ao ← export_array "ao" ao_channel (build_ao on_null) c pcnt
  ai ← export_array "ai" ai_channel (build_ai on_null) c ao
  tc ← export_array "tc" tc_channel (build_tc on_null) c ai
  do_ ← export_array "do" do_channel (build_do on_null) c tc
  di ← export_array "di" di_channel (build_di on_null) c do_
  some (
      member "format" (number (of_int (pos 2)))
        (export_system on_null (config_get_system c true) di))

-- What the caller gets: the status and, with CONFIG_OK, the text in `buf`, its length in `written`.
abbrev pub copy_out : ℕ → Option (List ℕ) → ConfigStatus × Option (List ℕ)
copy_out room none = (err_internal, none)
copy_out room (some out) =
    if ltb room (length out + 1) then (err_too_large, none) else (config_ok, some out)

unfoldable pub config_export_json :
    (Json → Option (List ℕ))
    → Option Json
    → Config
    → Bool
    → Bool
    → ℕ
    → Option (ConfigStatus × Option (List ℕ))
unfolding export_members
config_export_json print on_null c has_buf has_written room =
    if not has_buf || not has_written || room == 0
    then some (err_invalid, none)
    else do root ← export_members on_null c; some (copy_out room (print (object root)))
