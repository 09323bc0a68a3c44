-- ===== src/Config/Calls/Keeps.antt =====
-- What sequences of setter calls keep of the manager's state.
use config_wp.Base.{
  ℕ, ◌≡◌, refl, ◌∙◌, subst, Bool, true, Option, some, none, List, [], ◌∷◌, set, All, length-set,
  All-set,
}
use config_wp.Types.{
  config_num_di, config_num_do, config_num_tc, config_num_ai, config_num_ao, config_num_pcnt,
  config_num_pwm,
}
use config_wp.Types.Wire.{
  IsWireDi, IsWireDo, IsWireTc, IsWireAi, IsWireAo, IsWirePcnt, IsWirePwm, IsWireSystem,
}
use config_wp.Config.State.{Cache, Config}
use config_wp.Config.Validate.{
  validate_di, validate_do, validate_tc, validate_ai, validate_ao, validate_pcnt, validate_pwm,
}
use config_wp.Config.Access.Channel.{
  di_channel, do_channel, tc_channel, ai_channel, ao_channel, pcnt_channel, pwm_channel,
}
use config_wp.Config.Stream.{IsWireCache}
use config_wp.Config.Calls.{
  SetCall, run_call, run_calls, OnSome, IsTyped, IsArray, IsValidCache, Keeps, on_di, on_do, on_tc,
  on_ai, on_ao, on_pcnt, on_pwm, on_system,
}
use config_wp.Config.Calls.Effect.{set_effect, set_system_effect}

set-IsArray :
    {A : Type 0} (P : A → Type 0) (validate : A → Bool) (n : ℕ) (xs : List A) (i : ℕ) (r : A)
    → P r
    → validate r ≡ true
    → IsArray P validate n xs
    → IsArray P validate n (set xs i r)
set-IsArray P validate n xs i r h valid (full, all) =
    (length-set xs i r ∙ full, All-set (λ r. P r × (validate r ≡ true)) xs i r (h, valid) all)

on_some :
    {A : Type 0} (P : A → Type 0) (input : Option A) (r : A) → OnSome P input → input ≡ some r → P r
on_some P none r h e = absurd cc
on_some P (some q) r h e = subst (OnSome P) e h

call-Keeps :
    (call : SetCall) (c : Config)
    → IsTyped call
    → IsValidCache c.cache
    → Keeps c (run_call call c).1
unfolding di_channel do_channel tc_channel ai_channel ao_channel pcnt_channel pwm_channel
call-Keeps (on_di idx input) c t h =
    set_effect di_channel c idx input (Keeps c) (h, refl, refl, refl, refl)
      λ r e valid. (
        (
          set-IsArray IsWireDi validate_di config_num_di c.cache.di idx r
              (on_some IsWireDi input r t e) valid h.0,
          h.1,
          h.2,
          h.3,
          h.4,
          h.5,
          h.6,
          h.7,
          h.8,
        ),
        refl,
        refl,
        refl,
        refl,
      )
call-Keeps (on_do idx input) c t h =
    set_effect do_channel c idx input (Keeps c) (h, refl, refl, refl, refl)
      λ r e valid. (
        (
          h.0,
          set-IsArray IsWireDo validate_do config_num_do c.cache.do_ idx r
              (on_some IsWireDo input r t e) valid h.1,
          h.2,
          h.3,
          h.4,
          h.5,
          h.6,
          h.7,
          h.8,
        ),
        refl,
        refl,
        refl,
        refl,
      )
call-Keeps (on_tc idx input) c t h =
    set_effect tc_channel c idx input (Keeps c) (h, refl, refl, refl, refl)
      λ r e valid. (
        (
          h.0,
          h.1,
          set-IsArray IsWireTc validate_tc config_num_tc c.cache.tc idx r
              (on_some IsWireTc input r t e) valid h.2,
          h.3,
          h.4,
          h.5,
          h.6,
          h.7,
          h.8,
        ),
        refl,
        refl,
        refl,
        refl,
      )
call-Keeps (on_ai idx input) c t h =
    set_effect ai_channel c idx input (Keeps c) (h, refl, refl, refl, refl)
      λ r e valid. (
        (
          h.0,
          h.1,
          h.2,
          set-IsArray IsWireAi validate_ai config_num_ai c.cache.ai idx r
              (on_some IsWireAi input r t e) valid h.3,
          h.4,
          h.5,
          h.6,
          h.7,
          h.8,
        ),
        refl,
        refl,
        refl,
        refl,
      )
call-Keeps (on_ao idx input) c t h =
    set_effect ao_channel c idx input (Keeps c) (h, refl, refl, refl, refl)
      λ r e valid. (
        (
          h.0,
          h.1,
          h.2,
          h.3,
          set-IsArray IsWireAo validate_ao config_num_ao c.cache.ao idx r
              (on_some IsWireAo input r t e) valid h.4,
          h.5,
          h.6,
          h.7,
          h.8,
        ),
        refl,
        refl,
        refl,
        refl,
      )
call-Keeps (on_pcnt idx input) c t h =
    set_effect pcnt_channel c idx input (Keeps c) (h, refl, refl, refl, refl)
      λ r e valid. (
        (
          h.0,
          h.1,
          h.2,
          h.3,
          h.4,
          set-IsArray IsWirePcnt validate_pcnt config_num_pcnt c.cache.pcnt idx r
              (on_some IsWirePcnt input r t e) valid h.5,
          h.6,
          h.7,
          h.8,
        ),
        refl,
        refl,
        refl,
        refl,
      )
call-Keeps (on_pwm idx input) c t h =
    set_effect pwm_channel c idx input (Keeps c) (h, refl, refl, refl, refl)
      λ r e valid. (
        (
          h.0,
          h.1,
          h.2,
          h.3,
          h.4,
          h.5,
          set-IsArray IsWirePwm validate_pwm config_num_pwm c.cache.pwm idx r
              (on_some IsWirePwm input r t e) valid h.6,
          h.7,
          h.8,
        ),
        refl,
        refl,
        refl,
        refl,
      )
call-Keeps (on_system input) c t h =
    set_system_effect c input (Keeps c) (h, refl, refl, refl, refl)
      λ r e valid. (
        (h.0, h.1, h.2, h.3, h.4, h.5, h.6, on_some IsWireSystem input r t e, valid),
        refl,
        refl,
        refl,
        refl,
      )

-- From a cache of full arrays of records that are in the ranges of their C types, with a name that
-- ends in a zero byte and enums below 256, and that their validators accept, any sequence of calls
-- of the eight setters with null pointers or records in the ranges of their C types, with a name
-- that ends in a zero byte and enums below 256, at any indices, whether a call is accepted or
-- refused, leaves such a cache, and leaves the stash, the blob buffer and s_initialised as they
-- were.
pub calls-Keeps :
    (calls : List SetCall) (c : Config)
    → All IsTyped calls
    → IsValidCache c.cache
    → Keeps c (run_calls calls c)
calls-Keeps [] c t h = (h, refl, refl, refl, refl)
calls-Keeps (call ∷ calls) c t h =
    let d = (run_call call c).1 in
    let (valid, u, n, b, on) = call-Keeps call c t.0 h in
    let (valid', u', n', b', on') = calls-Keeps calls d t.1 valid in
    (valid', u' ∙ u, n' ∙ n, b' ∙ b, on' ∙ on)

pub fields :
    {A : Type 0} (P : A → Type 0) (validate : A → Bool) (xs : List A)
    → All (λ r. P r × (validate r ≡ true)) xs
    → All P xs
fields P validate [] h = tt
fields P validate (x ∷ xs) h = (h.0.0, fields P validate xs h.1)

pub valid-IsWireCache : (v : Cache) → IsValidCache v → IsWireCache v
valid-IsWireCache v h = record {
  di_count = h.0.0;
  do_count = h.1.0;
  tc_count = h.2.0;
  ai_count = h.3.0;
  ao_count = h.4.0;
  pcnt_count = h.5.0;
  pwm_count = h.6.0;
  di = fields IsWireDi validate_di v.di h.0.1;
  do_ = fields IsWireDo validate_do v.do_ h.1.1;
  tc = fields IsWireTc validate_tc v.tc h.2.1;
  ai = fields IsWireAi validate_ai v.ai h.3.1;
  ao = fields IsWireAo validate_ao v.ao h.4.1;
  pcnt = fields IsWirePcnt validate_pcnt v.pcnt h.5.1;
  pwm = fields IsWirePwm validate_pwm v.pwm h.6.1;
  system = h.7;
}
