-- ===== src/Lock/Pthread.antt =====
-- The lock of the host build: src/application/config_lock_pthread.c. The mutex is pthread's, which
-- `holder` stands for; `holds` has t_this_thread_holds of each thread.
use config_wp.Base.{
  some_injective, ℕ, Bool, true, false, not, Option, none, some, ◌≡◌, refl, ap, subst, ◌∙◌, ◌==◌,
  Bool-cases, inl, inr, if◌then◌else◌,
}

pub record PthreadLock : Type 0 where
  pub initialised : Bool
  pub holder : Option ℕ
  pub holds : ℕ → Bool

-- Whether pthread_mutex_init returns 0 is the argument.
unfoldable pub pthread_lock_create : Bool → PthreadLock → Bool × PthreadLock
pthread_lock_create can s =
    if s.initialised
    then (true, s)
    else if not can
    then (false, s)
    else (true, record s { initialised = true; holder = none })

unfoldable pub pthread_lock_destroy : PthreadLock → PthreadLock
pthread_lock_destroy s =
    if not s.initialised then s else record s { initialised = false; holder = none }

abbrev put_flag : (ℕ → Bool) → ℕ → Bool → ℕ → Bool
put_flag f t b u = if u == t then b else f u

-- pthread_mutex_lock returns when the mutex is free: `none` waits.
abbrev lock_free : ℕ → PthreadLock → Option ℕ → Option PthreadLock
lock_free t s none = some (record s { holder = some t; holds = put_flag s.holds t true })
lock_free t s (some u) = none

unfoldable pub pthread_lock_take : ℕ → PthreadLock → Option PthreadLock
pthread_lock_take t s = lock_free t s s.holder

unfoldable pub pthread_lock_give : ℕ → PthreadLock → PthreadLock
pthread_lock_give t s = record s { holder = none; holds = put_flag s.holds t false }

-- config_lock_is_held_by_current_thread
abbrev pub pthread_is_held : ℕ → PthreadLock → Bool
pthread_is_held t s = s.holds t

abbrev is_holder : ℕ → Option ℕ → Bool
is_holder t none = false
is_holder t (some u) = t == u

-- The flag of each thread says whether it has the mutex.
abbrev pub IsTold : PthreadLock → Type 0
IsTold s = (t : ℕ) → pthread_is_held t s ≡ is_holder t s.holder

taken-IsTold :
    (t : ℕ) (s : PthreadLock)
    → IsTold s
    → s.holder ≡ none
    → IsTold (record s { holder = some t; holds = put_flag s.holds t true })
taken-IsTold t s h free u = elim (Bool-cases (u == t)) [
  | inl same ↦ rw same refl
  | inr other ↦ rw other (h u ∙ ap (is_holder u) free)
]

pub take-IsTold : (t : ℕ) (s r : PthreadLock) → IsTold s → pthread_lock_take t s ≡ some r → IsTold r
unfolding pthread_lock_take
take-IsTold t s r h e = at_holder s.holder refl e
  where
    at_holder : (o : Option ℕ) → s.holder ≡ o → lock_free t s o ≡ some r → IsTold r
    at_holder none free e = subst IsTold (some_injective e) (taken-IsTold t s h free)
    at_holder (some u) free e = absurd cc

pub give-IsTold :
    (t : ℕ) (s : PthreadLock) → IsTold s → s.holder ≡ some t → IsTold (pthread_lock_give t s)
unfolding pthread_lock_give
give-IsTold t s h mine u = elim (Bool-cases (u == t)) [
  | inl same ↦ rw same refl
  | inr other ↦ rw other (h u ∙ ap (is_holder u) mine ∙ other)
]
