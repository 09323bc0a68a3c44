-- ===== src/Lock/Held.antt =====
-- What config_lock_is_held_by_current_thread tells a thread.
use config_wp.Base.{
  ℕ, true, false, ◌≡◌, ◌≢◌, refl, sym, ap, ◌∙◌, eq→==, distinct→==, Bool-cases, inl, inr, ◌⊎◌,
}
use config_wp.Lock.{
  outside, entering, marking, inside, leaving, Lock, Step, takes, owns, marks, clears, gives, Runs,
  still, then_step, RunsWithout, still_without, then_other, is_held, idle,
}
use config_wp.Lock.Sound.{
  Sound, idle-Sound, Step-Sound, put_other, some_same, is_outside, is_inside,
}

Runs-Sound : (s : Lock) → Runs idle s → Sound s
Runs-Sound s r = reached idle s idle-Sound r
  where
    reached : (q s : Lock) → Sound q → Runs q s → Sound s
    reached q s h still = h
    reached q s h (then_step {r = r} t before step) = Step-Sound t (reached q r h before) step

without-Sound : (t : ℕ) {s r : Lock} → Sound s → RunsWithout t s r → Sound r
without-Sound t h still_without = h
without-Sound t h (then_other u other before step) = Step-Sound u (without-Sound t h before) step

-- A step of another thread leaves the phase of `t`, and s_owner if it is not to be that thread.
Step-phase : (t u : ℕ) {s r : Lock} → u ≢ t → Step u s r → r.phase t ≡ s.phase t
Step-phase t u {s = s} ne (takes made out free) = put_other s.phase u t entering (λ e. ne (sym e))
Step-phase t u {s = s} ne (owns at_u) = put_other s.phase u t marking (λ e. ne (sym e))
Step-phase t u {s = s} ne (marks at_u) = put_other s.phase u t inside (λ e. ne (sym e))
Step-phase t u {s = s} ne (clears at_u) = put_other s.phase u t leaving (λ e. ne (sym e))
Step-phase t u {s = s} ne (gives at_u) = put_other s.phase u t outside (λ e. ne (sym e))

without-phase : (t : ℕ) {s r : Lock} → RunsWithout t s r → r.phase t ≡ s.phase t
without-phase t still_without = refl
without-phase t (then_other u other before step) =
    Step-phase t u other step ∙ without-phase t before

Step-owner : (t u : ℕ) {s r : Lock} → u ≢ t → Step u s r → s.owner ≢ t → r.owner ≢ t
Step-owner t u ne (takes made out free) apart = apart
Step-owner t u ne (owns at_u) apart = ne
Step-owner t u ne (marks at_u) apart = apart
Step-owner t u ne (clears at_u) apart = apart
Step-owner t u ne (gives at_u) apart = apart

without-owner : (t : ℕ) {s r : Lock} → RunsWithout t s r → s.owner ≢ t → r.owner ≢ t
without-owner t still_without apart = apart
without-owner t (then_other u other before step) apart =
    Step-owner t u other step (without-owner t before apart)

held_inside :
    (t : ℕ) (s r : Lock) → Sound s → RunsWithout t s r → s.phase t ≡ inside → is_held t s r ≡ true
held_inside t s r h run at_t =
    let after = without-Sound t h run in
    let owner = (after.owned t (without-phase t run ∙ at_t)).1 in
    rw (h.there, (h.owned t at_t).0) (eq→== r.owner t owner)

held_outside :
    (t : ℕ) (s r : Lock) → Sound s → RunsWithout t s r → s.phase t ≡ outside → is_held t s r ≡ false
held_outside t s r h run at_t = elim (Bool-cases s.has_owner) [
  | inr free ↦ rw (h.there, free) refl
  | inl marked ↦
      let (v, v_in) = h.someone marked in
      let owner : s.owner ≡ v = (h.owned v v_in).1 in
      let apart : s.owner ≢ t = λ e. absurd (cc (at_t, v_in, ap s.phase (sym owner ∙ e))) in
      rw (h.there, marked) (distinct→== r.owner t (without-owner t run apart))
]

-- From the lock just created, after any interleaving of the single writes of config_lock_take and
-- config_lock_give of any threads (the FreeRTOS version): config_lock_is_held_by_current_thread,
-- which reads s_has_owner and then s_owner with any steps of other threads in between, returns
-- true to a thread that is between its take and its give, and false to a thread that is outside of
-- them.
pub is_held_exact :
    (t : ℕ) (s r : Lock)
    → Runs idle s
    → RunsWithout t s r
    → (s.phase t ≡ outside) ⊎ (s.phase t ≡ inside)
    → is_held t s r ≡ is_inside (s.phase t)
is_held_exact t s r run others (inl out) =
    held_outside t s r (Runs-Sound s run) others out ∙ ap is_inside (sym out)
is_held_exact t s r run others (inr in_lock) =
    held_inside t s r (Runs-Sound s run) others in_lock ∙ ap is_inside (sym in_lock)

-- Two threads between config_lock_take and config_lock_give are one.
pub inside_alone :
    (t u : ℕ) (s : Lock) → Runs idle s → s.phase t ≡ inside → s.phase u ≡ inside → t ≡ u
inside_alone t u s run at_t at_u =
    let h = Runs-Sound s run in
    some_same (h.held t (ap is_outside at_t)) (h.held u (ap is_outside at_u))
