-- ===== src/Codec/RoundTrip.antt =====
-- Decoding what an encoder wrote gives the record back, whatever follows it in memory.
use config_wp.Base.{
  ℕ, ◌≡◌, ◌+◌, ◌∙◌, ap, refl, Bool, true, false, some, List, [], ◌∷◌, ◌++◌, length, set, get_elem?,
  suc, zero, arith, append_assoc, length-append, if◌then◌else◌,
}
use config_wp.Types.{
  DiConfig, DoConfig, TcConfig, AiConfig, AoConfig, PcntConfig, PwmConfig, SystemConfig,
  config_name_len,
}
use config_wp.Types.Wire.{
  IsName, IsWireDi, IsWireDo, IsWireTc, IsWireAi, IsWireAo, IsWirePcnt, IsWirePwm, IsWireSystem,
}
use config_wp.Codec.Cursor.{
  ◌>>=◌, put_u8, put_u16, put_u32, put_i16, put_i32, put_bytes, get_u8-put_u8, get_u16-put_u16,
  get_u32-put_u32, get_i16-put_i16, get_i32-put_i32, get_bytes-put_bytes, length-put_bytes,
}
use config_wp.Codec.Encode.{
  di_bytes, do_bytes, tc_bytes, ai_bytes, ao_bytes, pcnt_bytes, pwm_bytes, system_bytes,
}
use config_wp.Codec.Decode.{
  get_bool, get_name, read_di, read_do, read_tc, read_ai, read_ao, read_pcnt, read_pwm, read_system,
}

get_bool-put_u8 :
    (b : Bool) (p : List ℕ) → get_bool (put_u8 (if b then 1 else 0) ++ p) ≡ some (b, p)
unfolding get_bool put_u8
get_bool-put_u8 true p = refl
get_bool-put_u8 false p = refl

-- A write of what the list already holds.
set-get_elem? : (xs : List ℕ) (i v : ℕ) → get_elem? xs i ≡ some v → set xs i v ≡ xs
set-get_elem? [] i v h = refl
set-get_elem? (x ∷ xs) zero v h = ground arith
set-get_elem? (x ∷ xs) (suc i) v h = ap (λ t. x ∷ t) (set-get_elem? xs i v h)

get_name-put_bytes :
    (n p : List ℕ) → IsName n → get_name (put_bytes n config_name_len ++ p) ≡ some (n, p)
unfolding get_name
get_name-put_bytes n p h =
    rw (get_bytes-put_bytes 16 n p h.full, ◌>>=◌)
      (ap (λ (m : List ℕ). some (m, p)) (set-get_elem? n 15 0 h.terminated))

pub read_di-bytes :
    (r : DiConfig) (p : List ℕ) → IsWireDi r → read_di (di_bytes r ++ p) ≡ some (r, p)
unfolding read_di di_bytes
read_di-bytes r p h = simp append_assoc (
    rw (
      get_name-put_bytes r.name _ h.name,
      get_u16-put_u16 r.id _ h.id,
      get_u16-put_u16 r.debounce_ms _ h.debounce_ms,
      get_u8-put_u8 r.polarity _ h.polarity,
      get_u8-put_u8 r.fault_state _ h.fault_state,
      get_bool-put_u8 r.interrupt_enabled _,
      ◌>>=◌,
    ))

pub length-di_bytes : (r : DiConfig) → IsName r.name → length (di_bytes r) ≡ 23
unfolding di_bytes put_u8 put_u16 put_u32 put_i16 put_i32
length-di_bytes r h =
    length-append (put_bytes r.name config_name_len) _
    ∙ ap (λ (n : ℕ). n + 7) (length-put_bytes 16 r.name h.full)

pub read_do-bytes :
    (r : DoConfig) (p : List ℕ) → IsWireDo r → read_do (do_bytes r ++ p) ≡ some (r, p)
unfolding read_do do_bytes
read_do-bytes r p h = simp append_assoc (
    rw (
      get_name-put_bytes r.name _ h.name,
      get_u16-put_u16 r.id _ h.id,
      get_u8-put_u8 r.polarity _ h.polarity,
      get_u8-put_u8 r.fault_state _ h.fault_state,
      ◌>>=◌,
    ))

pub length-do_bytes : (r : DoConfig) → IsName r.name → length (do_bytes r) ≡ 20
unfolding do_bytes put_u8 put_u16 put_u32 put_i16 put_i32
length-do_bytes r h =
    length-append (put_bytes r.name config_name_len) _
    ∙ ap (λ (n : ℕ). n + 4) (length-put_bytes 16 r.name h.full)

pub read_tc-bytes :
    (r : TcConfig) (p : List ℕ) → IsWireTc r → read_tc (tc_bytes r ++ p) ≡ some (r, p)
unfolding read_tc tc_bytes
read_tc-bytes r p h = simp append_assoc (
    rw (
      get_name-put_bytes r.name _ h.name,
      get_u16-put_u16 r.id _ h.id,
      get_u8-put_u8 r.tc_type _ h.tc_type,
      get_u8-put_u8 r.unit _ h.unit,
      get_bool-put_u8 r.cjc_enabled _,
      get_u16-put_u16 r.filter_ms _ h.filter_ms,
      get_u8-put_u8 r.fault_state _ h.fault_state,
      get_i16-put_i16 r.fault_value_c10 _ h.fault_value_c10,
      ◌>>=◌,
    ))

pub length-tc_bytes : (r : TcConfig) → IsName r.name → length (tc_bytes r) ≡ 26
unfolding tc_bytes put_u8 put_u16 put_u32 put_i16 put_i32
length-tc_bytes r h =
    length-append (put_bytes r.name config_name_len) _
    ∙ ap (λ (n : ℕ). n + 10) (length-put_bytes 16 r.name h.full)

pub read_ai-bytes :
    (r : AiConfig) (p : List ℕ) → IsWireAi r → read_ai (ai_bytes r ++ p) ≡ some (r, p)
unfolding read_ai ai_bytes
read_ai-bytes r p h = simp append_assoc (
    rw (
      get_name-put_bytes r.name _ h.name,
      get_u16-put_u16 r.id _ h.id,
      get_u8-put_u8 r.input_mode _ h.input_mode,
      get_u16-put_u16 r.filter_ms _ h.filter_ms,
      get_i32-put_i32 r.scale_num _ h.scale_num,
      get_i32-put_i32 r.scale_den _ h.scale_den,
      get_i32-put_i32 r.offset _ h.offset,
      get_u8-put_u8 r.fault_state _ h.fault_state,
      get_i32-put_i32 r.fault_value _ h.fault_value,
      ◌>>=◌,
    ))

pub length-ai_bytes : (r : AiConfig) → IsName r.name → length (ai_bytes r) ≡ 38
unfolding ai_bytes put_u8 put_u16 put_u32 put_i16 put_i32
length-ai_bytes r h =
    length-append (put_bytes r.name config_name_len) _
    ∙ ap (λ (n : ℕ). n + 22) (length-put_bytes 16 r.name h.full)

pub read_ao-bytes :
    (r : AoConfig) (p : List ℕ) → IsWireAo r → read_ao (ao_bytes r ++ p) ≡ some (r, p)
unfolding read_ao ao_bytes
read_ao-bytes r p h = simp append_assoc (
    rw (
      get_name-put_bytes r.name _ h.name,
      get_u16-put_u16 r.id _ h.id,
      get_u8-put_u8 r.output_mode _ h.output_mode,
      get_u16-put_u16 r.slew_per_s _ h.slew_per_s,
      get_i32-put_i32 r.scale_num _ h.scale_num,
      get_i32-put_i32 r.scale_den _ h.scale_den,
      get_i32-put_i32 r.offset _ h.offset,
      get_u8-put_u8 r.fault_state _ h.fault_state,
      get_i32-put_i32 r.fault_value _ h.fault_value,
      ◌>>=◌,
    ))

pub length-ao_bytes : (r : AoConfig) → IsName r.name → length (ao_bytes r) ≡ 38
unfolding ao_bytes put_u8 put_u16 put_u32 put_i16 put_i32
length-ao_bytes r h =
    length-append (put_bytes r.name config_name_len) _
    ∙ ap (λ (n : ℕ). n + 22) (length-put_bytes 16 r.name h.full)

pub read_pcnt-bytes :
    (r : PcntConfig) (p : List ℕ) → IsWirePcnt r → read_pcnt (pcnt_bytes r ++ p) ≡ some (r, p)
unfolding read_pcnt pcnt_bytes
read_pcnt-bytes r p h = simp append_assoc (
    rw (
      get_name-put_bytes r.name _ h.name,
      get_u16-put_u16 r.id _ h.id,
      get_u8-put_u8 r.mode _ h.mode,
      get_u8-put_u8 r.edge _ h.edge,
      get_u32-put_u32 r.limit _ h.limit,
      get_bool-put_u8 r.reset_on_read _,
      ◌>>=◌,
    ))

pub length-pcnt_bytes : (r : PcntConfig) → IsName r.name → length (pcnt_bytes r) ≡ 25
unfolding pcnt_bytes put_u8 put_u16 put_u32 put_i16 put_i32
length-pcnt_bytes r h =
    length-append (put_bytes r.name config_name_len) _
    ∙ ap (λ (n : ℕ). n + 9) (length-put_bytes 16 r.name h.full)

pub read_pwm-bytes :
    (r : PwmConfig) (p : List ℕ) → IsWirePwm r → read_pwm (pwm_bytes r ++ p) ≡ some (r, p)
unfolding read_pwm pwm_bytes
read_pwm-bytes r p h = simp append_assoc (
    rw (
      get_name-put_bytes r.name _ h.name,
      get_u16-put_u16 r.id _ h.id,
      get_u32-put_u32 r.period_us _ h.period_us,
      get_u16-put_u16 r.duty_permille _ h.duty_permille,
      get_u8-put_u8 r.fault_state _ h.fault_state,
      get_u16-put_u16 r.fault_duty_permille _ h.fault_duty_permille,
      ◌>>=◌,
    ))

pub length-pwm_bytes : (r : PwmConfig) → IsName r.name → length (pwm_bytes r) ≡ 27
unfolding pwm_bytes put_u8 put_u16 put_u32 put_i16 put_i32
length-pwm_bytes r h =
    length-append (put_bytes r.name config_name_len) _
    ∙ ap (λ (n : ℕ). n + 11) (length-put_bytes 16 r.name h.full)

pub read_system-bytes :
    (r : SystemConfig) (p : List ℕ)
    → IsWireSystem r
    → read_system (system_bytes r ++ p) ≡ some (r, p)
unfolding read_system system_bytes
read_system-bytes r p h = simp append_assoc (
    rw (
      get_u8-put_u8 r.canopen_node_id _ h.canopen_node_id,
      get_u8-put_u8 r.can_bitrate _ h.can_bitrate,
      get_u16-put_u16 r.heartbeat_ms _ h.heartbeat_ms,
      get_u32-put_u32 r.sync_window_us _ h.sync_window_us,
      get_u8-put_u8 r.nmt_startup _ h.nmt_startup,
      get_u32-put_u32 r.producer_emcy_cob_id _ h.producer_emcy_cob_id,
      ◌>>=◌,
    ))

pub length-system_bytes : (r : SystemConfig) → length (system_bytes r) ≡ 13
unfolding system_bytes put_u8 put_u16 put_u32
length-system_bytes r = refl
