-- ===== src/Lock.antt =====
-- The lock around the cache: src/application/config_lock_freertos.c, one write after the other, as
-- the threads interleave. A thread is a number. The mutex is FreeRTOS's: `holder` is the thread that
-- has it, xSemaphoreTake returns when it is free, and xSemaphoreGive frees it.
pub mod Sound
pub mod Held
pub mod Pthread
use config_wp.Base.{
  ℕ, Bool, true, false, ◌||◌, not, Option, none, some, ◌≡◌, ◌≢◌, ◌==◌, if◌then◌else◌,
}

-- Where a thread stands: outside of config_lock_take and config_lock_give, in config_lock_take with
-- the mutex or with s_owner written too, between the two, and in config_lock_give with s_has_owner
-- cleared.
pub data Phase : Type 0 where
  outside entering marking inside leaving : Phase

-- s_mutex (whether it is there), s_owner and s_has_owner, the mutex, and where the threads stand.
pub record Lock : Type 0 where
  pub created : Bool
  pub holder : Option ℕ
  pub owner : ℕ
  pub has_owner : Bool
  pub phase : ℕ → Phase

-- Whether the mutex could be created is the argument.
unfoldable pub config_lock_create : Bool → Lock → Bool × Lock
config_lock_create can s =
    if s.created
    then (true, s)
    else if not can
    then (false, s)
    else (true, record s { created = true; has_owner = false })

unfoldable pub config_lock_destroy : Lock → Lock
config_lock_destroy s =
    if not s.created then s else record s { created = false; has_owner = false; holder = none }

abbrev pub put_phase : (ℕ → Phase) → ℕ → Phase → ℕ → Phase
put_phase f t p u = if u == t then p else f u

-- config_lock_take and config_lock_give of thread t.
abbrev pub take_mutex : ℕ → Lock → Lock
take_mutex t s = record s { holder = some t; phase = put_phase s.phase t entering }

abbrev pub write_owner : ℕ → Lock → Lock
write_owner t s = record s { owner = t; phase = put_phase s.phase t marking }

abbrev pub write_has_owner : ℕ → Lock → Lock
write_has_owner t s = record s { has_owner = true; phase = put_phase s.phase t inside }

abbrev pub clear_has_owner : ℕ → Lock → Lock
clear_has_owner t s = record s { has_owner = false; phase = put_phase s.phase t leaving }

abbrev pub give_mutex : ℕ → Lock → Lock
give_mutex t s = record s { holder = none; phase = put_phase s.phase t outside }

-- A step of thread t. Taking the mutex waits until it is free.
pub data Step (t : ℕ) : Lock → Lock → Type 0 where
  takes :
      {s : Lock}
      → s.created ≡ true
      → s.phase t ≡ outside
      → s.holder ≡ none
      → Step t s (take_mutex t s)
  owns : {s : Lock} → s.phase t ≡ entering → Step t s (write_owner t s)
  marks : {s : Lock} → s.phase t ≡ marking → Step t s (write_has_owner t s)
  clears : {s : Lock} → s.phase t ≡ inside → Step t s (clear_has_owner t s)
  gives : {s : Lock} → s.phase t ≡ leaving → Step t s (give_mutex t s)

-- Any number of steps, of any threads.
pub data Runs : Lock → Lock → Type 0 where
  still : {s : Lock} → Runs s s
  then_step : {s r q : Lock} (t : ℕ) → Runs s r → Step t r q → Runs s q

-- Any number of steps, of threads other than `t`.
pub data RunsWithout (t : ℕ) : Lock → Lock → Type 0 where
  still_without : {s : Lock} → RunsWithout t s s
  then_other : {s r q : Lock} (u : ℕ) → u ≢ t → RunsWithout t s r → Step u r q → RunsWithout t s q

-- config_lock_is_held_by_current_thread of thread t, which reads s_has_owner in the first state and
-- s_owner in the second.
abbrev pub is_held : ℕ → Lock → Lock → Bool
is_held t first second =
    if not first.created || not first.has_owner then false else second.owner == t

-- No thread has entered.
abbrev pub idle : Lock
idle = record { created = true; holder = none; owner = 0; has_owner = false; phase = λ t. outside }
