-- ===== src/Codec/Total.antt =====
-- The decoders are total: a read that has its bytes succeeds and consumes exactly them, so that no
-- decoder reads past the length that check_decode asked for.
use config_wp.Base.{
  ℕ, zero, suc, ◌+◌, ◌≤◌, ◌≡◌, ◌≢◌, refl, Bool, true, false, Option, some, List, [], ◌∷◌, length,
  arith, ltb, Bool-cases, inl, inr, ltb→le,
}
use config_wp.Codec.Cursor.{
  Read, ◌>>=◌, pure, get_u8, get_u16, get_u32, get_i16, get_i32, get_bytes,
}
use config_wp.Codec.Decode.{
  fault, decode_with, check_decode, get_bool, get_name, read_di, read_do, read_tc, read_ai, read_ao,
  read_pcnt, read_pwm, read_system,
}

-- Given `n` bytes or more, the read succeeds and consumes `n` of them.
abbrev pub Takes : {A : Type 0} → ℕ → Read A → Type 0
Takes {A = A} n m =
    (p : List ℕ)
    → n ≤ length p
    → (a : A) × (q : List ℕ) × (m p ≡ some (a, q)) × (n + length q ≡ length p)

pub pure-Takes : {A : Type 0} (a : A) → Takes 0 (pure a)
pure-Takes a p h = (a, p, refl, omega arith)

bind_some :
    {A B : Type 0} (m : Read A) (f : A → Read B) (p q : List ℕ) (a : A) (r : Option (B × List ℕ))
    → m p ≡ some (a, q)
    → f a q ≡ r
    → (m >>= f) p ≡ r
bind_some m f p q a r e g = rw (e, ◌>>=◌) g

pub bind-Takes :
    {A B : Type 0} (n k : ℕ) (m : Read A) (f : A → Read B)
    → Takes n m
    → ((a : A) → Takes k (f a))
    → Takes (n + k) (m >>= f)
bind-Takes n k m f first then p h =
    let (a, q, reads, rest) = first p (omega arith) in
    let (b, r, reads', rest') = then a q (omega arith) in
    (b, r, bind_some m f p q a (some (b, r)) reads reads', omega arith)

pub u8-Takes : Takes 1 get_u8
unfolding get_u8
u8-Takes [] h = absurd (omega arith)
u8-Takes (b ∷ p) h = (b, p, refl, omega arith)

pub u16-Takes : Takes 2 get_u16
unfolding get_u16
u16-Takes [] h = absurd (omega arith)
u16-Takes (a ∷ []) h = absurd (omega arith)
u16-Takes (a ∷ b ∷ p) h = (_, p, refl, omega arith)

pub u32-Takes : Takes 4 get_u32
unfolding get_u32
u32-Takes [] h = absurd (omega arith)
u32-Takes (a ∷ []) h = absurd (omega arith)
u32-Takes (a ∷ b ∷ []) h = absurd (omega arith)
u32-Takes (a ∷ b ∷ c ∷ []) h = absurd (omega arith)
u32-Takes (a ∷ b ∷ c ∷ d ∷ p) h = (_, p, refl, omega arith)

i16-Takes : Takes 2 get_i16
unfolding get_i16
i16-Takes = bind-Takes 2 0 get_u16 _ u16-Takes (λ v. pure-Takes _)

i32-Takes : Takes 4 get_i32
unfolding get_i32
i32-Takes = bind-Takes 4 0 get_u32 _ u32-Takes (λ v. pure-Takes _)

bytes-Takes : (n : ℕ) → Takes n (get_bytes n)
unfolding get_bytes
bytes-Takes zero p h = ([], p, refl, omega arith)
bytes-Takes (suc n) [] h = absurd (omega arith)
bytes-Takes (suc n) (b ∷ p) h =
    let (bs, q, reads, rest) = bytes-Takes n p (omega arith) in
    (b ∷ bs, q, rw reads refl, omega arith)

bool-Takes : Takes 1 get_bool
unfolding get_bool
bool-Takes = bind-Takes 1 0 get_u8 _ u8-Takes (λ v. pure-Takes _)

name-Takes : Takes 16 get_name
unfolding get_name
name-Takes = bind-Takes 16 0 (get_bytes 16) _ (bytes-Takes 16) (λ v. pure-Takes _)

pub di-Takes : Takes 23 read_di
unfolding read_di
di-Takes = bind-Takes 16 7 get_name _ name-Takes (λ name_.
    bind-Takes 2 5 get_u16 _ u16-Takes (λ id_. bind-Takes 2 3 get_u16 _ u16-Takes (λ debounce_ms_.
      bind-Takes 1 2 get_u8 _ u8-Takes (λ polarity_.
        bind-Takes 1 1 get_u8 _ u8-Takes (λ fault_state_.
          bind-Takes 1 0 get_bool _ bool-Takes (λ interrupt_enabled_. pure-Takes _))))))

pub do-Takes : Takes 20 read_do
unfolding read_do
do-Takes = bind-Takes 16 4 get_name _ name-Takes (λ name_.
    bind-Takes 2 2 get_u16 _ u16-Takes (λ id_.
      bind-Takes 1 1 get_u8 _ u8-Takes
        (λ polarity_. bind-Takes 1 0 get_u8 _ u8-Takes (λ fault_state_. pure-Takes _))))

pub tc-Takes : Takes 26 read_tc
unfolding read_tc
tc-Takes = bind-Takes 16 10 get_name _ name-Takes (λ name_.
    bind-Takes 2 8 get_u16 _ u16-Takes (λ id_. bind-Takes 1 7 get_u8 _ u8-Takes (λ tc_type_.
      bind-Takes 1 6 get_u8 _ u8-Takes (λ unit_.
        bind-Takes 1 5 get_bool _ bool-Takes (λ cjc_enabled_.
          bind-Takes 2 3 get_u16 _ u16-Takes (λ filter_ms_.
            bind-Takes 1 2 get_u8 _ u8-Takes (λ fault_state_.
              bind-Takes 2 0 get_i16 _ i16-Takes (λ fault_value_c10_. pure-Takes _))))))))

pub ai-Takes : Takes 38 read_ai
unfolding read_ai
ai-Takes = bind-Takes 16 22 get_name _ name-Takes (λ name_.
    bind-Takes 2 20 get_u16 _ u16-Takes (λ id_. bind-Takes 1 19 get_u8 _ u8-Takes (λ input_mode_.
      bind-Takes 2 17 get_u16 _ u16-Takes (λ filter_ms_.
        bind-Takes 4 13 get_i32 _ i32-Takes (λ scale_num_.
          bind-Takes 4 9 get_i32 _ i32-Takes (λ scale_den_.
            bind-Takes 4 5 get_i32 _ i32-Takes (λ offset_.
              bind-Takes 1 4 get_u8 _ u8-Takes (λ fault_state_.
                bind-Takes 4 0 get_i32 _ i32-Takes (λ fault_value_. pure-Takes _)))))))))

pub ao-Takes : Takes 38 read_ao
unfolding read_ao
ao-Takes = bind-Takes 16 22 get_name _ name-Takes (λ name_.
    bind-Takes 2 20 get_u16 _ u16-Takes (λ id_. bind-Takes 1 19 get_u8 _ u8-Takes (λ output_mode_.
      bind-Takes 2 17 get_u16 _ u16-Takes (λ slew_per_s_.
        bind-Takes 4 13 get_i32 _ i32-Takes (λ scale_num_.
          bind-Takes 4 9 get_i32 _ i32-Takes (λ scale_den_.
            bind-Takes 4 5 get_i32 _ i32-Takes (λ offset_.
              bind-Takes 1 4 get_u8 _ u8-Takes (λ fault_state_.
                bind-Takes 4 0 get_i32 _ i32-Takes (λ fault_value_. pure-Takes _)))))))))

pub pcnt-Takes : Takes 25 read_pcnt
unfolding read_pcnt
pcnt-Takes = bind-Takes 16 9 get_name _ name-Takes (λ name_.
    bind-Takes 2 7 get_u16 _ u16-Takes (λ id_. bind-Takes 1 6 get_u8 _ u8-Takes (λ mode_.
      bind-Takes 1 5 get_u8 _ u8-Takes (λ edge_.
        bind-Takes 4 1 get_u32 _ u32-Takes
          (λ limit_. bind-Takes 1 0 get_bool _ bool-Takes (λ reset_on_read_. pure-Takes _))))))

pub pwm-Takes : Takes 27 read_pwm
unfolding read_pwm
pwm-Takes = bind-Takes 16 11 get_name _ name-Takes (λ name_.
    bind-Takes 2 9 get_u16 _ u16-Takes (λ id_. bind-Takes 4 5 get_u32 _ u32-Takes (λ period_us_.
      bind-Takes 2 3 get_u16 _ u16-Takes (λ duty_permille_.
        bind-Takes 1 2 get_u8 _ u8-Takes (λ fault_state_.
          bind-Takes 2 0 get_u16 _ u16-Takes (λ fault_duty_permille_. pure-Takes _))))))

pub system-Takes : Takes 13 read_system
unfolding read_system
system-Takes = bind-Takes 1 12 get_u8 _ u8-Takes (λ canopen_node_id_.
    bind-Takes 1 11 get_u8 _ u8-Takes (λ can_bitrate_.
      bind-Takes 2 9 get_u16 _ u16-Takes (λ heartbeat_ms_.
        bind-Takes 4 5 get_u32 _ u32-Takes (λ sync_window_us_.
          bind-Takes 1 4 get_u8 _ u8-Takes (λ nmt_startup_.
            bind-Takes 4 0 get_u32 _ u32-Takes (λ producer_emcy_cob_id_. pure-Takes _))))))

-- Where `len` bytes are there, a decoder gives a record or a refusal.
pub decode_with-total :
    {A : Type 0} (size : ℕ) (body : Read A) (buf : List ℕ) (len : ℕ) (has_out : Bool)
    → Takes size body
    → len ≤ length buf
    → decode_with size body (some buf) len has_out ≢ fault
unfolding decode_with check_decode
decode_with-total size body buf len false takes h = λ e. cc
decode_with-total size body buf len true takes h = elim (Bool-cases (ltb len size)) [
  | inl short ↦ rw (short, decode_with) (λ e. cc)
  | inr enough ↦
      let (a, q, reads, rest) = takes buf (omega (arith, ltb→le len size enough)) in
      rw (enough, decode_with) (rw reads (λ e. cc))
]
