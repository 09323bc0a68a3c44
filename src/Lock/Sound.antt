-- ===== src/Lock/Sound.antt =====
-- The invariant of the lock: who holds the mutex, and what the two variables say of it.
use config_wp.Base.{
  ℕ, Bool, true, false, Option, none, some, ◌≡◌, ◌≢◌, refl, sym, ap, ◌∙◌, arith, ◌==◌, eq→==,
  distinct→==, Bool-cases, inl, inr, ◌⊎◌,
}
use config_wp.Lock.{
  Phase, outside, entering, marking, inside, leaving, Lock, put_phase, take_mutex, write_owner,
  write_has_owner, clear_has_owner, give_mutex, Step, takes, owns, marks, clears, gives, idle,
}

abbrev pub is_outside : Phase → Bool
is_outside outside = true
is_outside _ = false

abbrev pub is_inside : Phase → Bool
is_inside inside = true
is_inside _ = false

-- Only the holder of the mutex is past the take, and the two variables tell who is inside.
pub record Sound (s : Lock) : Type 0 where
  pub held : (t : ℕ) → is_outside (s.phase t) ≡ false → s.holder ≡ some t
  pub marked : (t : ℕ) → s.phase t ≡ marking → s.owner ≡ t
  pub owned : (t : ℕ) → s.phase t ≡ inside → (s.has_owner ≡ true) × (s.owner ≡ t)
  pub someone : s.has_owner ≡ true → (t : ℕ) × (s.phase t ≡ inside)
  pub there : s.created ≡ true

pub idle-Sound : Sound idle
idle-Sound = record {
  held = λ t h. absurd cc;
  marked = λ t h. absurd cc;
  owned = λ t h. absurd cc;
  someone = λ h. absurd cc;
  there = refl;
}

put_self : (f : ℕ → Phase) (t : ℕ) (p : Phase) → put_phase f t p t ≡ p
put_self f t p = rw (eq→== t t refl) refl

pub put_other : (f : ℕ → Phase) (t u : ℕ) (p : Phase) → u ≢ t → put_phase f t p u ≡ f u
put_other f t u p ne = rw (distinct→== u t ne) refl

pub same_number : (u t : ℕ) → (u == t) ≡ true → u ≡ t
same_number u t h = ground arith

-- A thread's phase after another one's was written: its own, or as it was.
put_cases :
    (f : ℕ → Phase) (t u : ℕ) (p : Phase)
    → ((u ≡ t) × (put_phase f t p u ≡ p)) ⊎ ((u ≢ t) × (put_phase f t p u ≡ f u))
put_cases f t u p = elim (Bool-cases (u == t)) [
  | inl same ↦ inl (same_number u t same, rw same refl)
  | inr other ↦ inr ((λ e. absurd (cc (eq→== u t e, other))), rw other refl)
]

pub some_same : {t u : ℕ} {o : Option ℕ} → o ≡ some t → o ≡ some u → t ≡ u
some_same e g = cc

past : {p q : Phase} → p ≡ q → is_outside q ≡ false → is_outside p ≡ false
past e h = ap is_outside e ∙ h

module _ (s : Lock) (h : Sound s) (t : ℕ) where
  alone : is_outside (s.phase t) ≡ false → (u : ℕ) → is_outside (s.phase u) ≡ false → u ≡ t
  alone at_t u at_u = some_same (h.held u at_u) (h.held t at_t)

  -- Any write of `t` that keeps the mutex as it is, and leaves `t` past the take.
  held_after :
      (p : Phase)
      → is_outside (s.phase t) ≡ false
      → (u : ℕ) → is_outside (put_phase s.phase t p u) ≡ false
      → s.holder ≡ some u
  held_after p at_t u k = elim (put_cases s.phase t u p) [
    | inl (same, e) ↦ h.held t at_t ∙ ap some (sym same)
    | inr (other, e) ↦ h.held u (past (sym e) k)
  ]

  takes-Sound : s.phase t ≡ outside → s.holder ≡ none → Sound (take_mutex t s)
  takes-Sound out free = record {
    held = λ u k. elim (put_cases s.phase t u entering) [
      | inl (same, e) ↦ ap some (sym same)
      | inr (other, e) ↦ absurd (cc (free, h.held u (past (sym e) k)))
    ];
    marked = λ u k. elim (put_cases s.phase t u entering) [
      | inl (same, e) ↦ absurd (cc (e, k))
      | inr (other, e) ↦ h.marked u (sym e ∙ k)
    ];
    owned = λ u k. elim (put_cases s.phase t u entering) [
      | inl (same, e) ↦ absurd (cc (e, k))
      | inr (other, e) ↦ h.owned u (sym e ∙ k)
    ];
    someone = λ k.
        let (v, v_in) = h.someone k in
        elim (put_cases s.phase t v entering) [
          | inl (same, e) ↦ absurd (cc (out, v_in, ap s.phase same))
          | inr (other, e) ↦ (v, e ∙ v_in)
        ];
    there = h.there;
  }

  owns-Sound : s.phase t ≡ entering → Sound (write_owner t s)
  owns-Sound at_t =
      let in_t : is_outside (s.phase t) ≡ false = ap is_outside at_t in
      record {
        held = held_after marking in_t;
        marked = λ u k. elim (put_cases s.phase t u marking) [
          | inl (same, e) ↦ sym same
          | inr (other, e) ↦ absurd (other (alone in_t u (ap is_outside (sym e ∙ k))))
        ];
        owned = λ u k. elim (put_cases s.phase t u marking) [
          | inl (same, e) ↦ absurd (cc (e, k))
          | inr (other, e) ↦ absurd (other (alone in_t u (ap is_outside (sym e ∙ k))))
        ];
        someone = λ k.
            let (v, v_in) = h.someone k in
            let same = alone in_t v (ap is_outside v_in) in
            absurd (cc (at_t, v_in, ap s.phase same));
        there = h.there;
      }

  marks-Sound : s.phase t ≡ marking → Sound (write_has_owner t s)
  marks-Sound at_t = record {
    held = held_after inside (ap is_outside at_t);
    marked = λ u k. elim (put_cases s.phase t u inside) [
      | inl (same, e) ↦ absurd (cc (e, k))
      | inr (other, e) ↦ h.marked u (sym e ∙ k)
    ];
    owned = λ u k. elim (put_cases s.phase t u inside) [
      | inl (same, e) ↦ (refl, h.marked t at_t ∙ sym same)
      | inr (other, e) ↦ (refl, (h.owned u (sym e ∙ k)).1)
    ];
    someone = λ k. (t, put_self s.phase t inside);
    there = h.there;
  }

  clears-Sound : s.phase t ≡ inside → Sound (clear_has_owner t s)
  clears-Sound at_t =
      let in_t : is_outside (s.phase t) ≡ false = ap is_outside at_t in
      record {
        held = held_after leaving in_t;
        marked = λ u k. elim (put_cases s.phase t u leaving) [
          | inl (same, e) ↦ absurd (cc (e, k))
          | inr (other, e) ↦ h.marked u (sym e ∙ k)
        ];
        owned = λ u k. elim (put_cases s.phase t u leaving) [
          | inl (same, e) ↦ absurd (cc (e, k))
          | inr (other, e) ↦ absurd (other (alone in_t u (ap is_outside (sym e ∙ k))))
        ];
        someone = λ k. absurd cc;
        there = h.there;
      }

  gives-Sound : s.phase t ≡ leaving → Sound (give_mutex t s)
  gives-Sound at_t =
      let in_t : is_outside (s.phase t) ≡ false = ap is_outside at_t in
      record {
        held = λ u k. elim (put_cases s.phase t u outside) [
          | inl (same, e) ↦ absurd (cc (e, k))
          | inr (other, e) ↦ absurd (other (alone in_t u (past (sym e) k)))
        ];
        marked = λ u k. elim (put_cases s.phase t u outside) [
          | inl (same, e) ↦ absurd (cc (e, k))
          | inr (other, e) ↦ h.marked u (sym e ∙ k)
        ];
        owned = λ u k. elim (put_cases s.phase t u outside) [
          | inl (same, e) ↦ absurd (cc (e, k))
          | inr (other, e) ↦ h.owned u (sym e ∙ k)
        ];
        someone = λ k.
            let (v, v_in) = h.someone k in
            elim (put_cases s.phase t v outside) [
              | inl (same, e) ↦ absurd (cc (at_t, v_in, ap s.phase same))
              | inr (other, e) ↦ (v, e ∙ v_in)
            ];
        there = h.there;
      }

pub Step-Sound : (t : ℕ) {s r : Lock} → Sound s → Step t s r → Sound r
Step-Sound t {s = s} h (takes made out free) = takes-Sound s h t out free
Step-Sound t {s = s} h (owns at_t) = owns-Sound s h t at_t
Step-Sound t {s = s} h (marks at_t) = marks-Sound s h t at_t
Step-Sound t {s = s} h (clears at_t) = clears-Sound s h t at_t
Step-Sound t {s = s} h (gives at_t) = gives-Sound s h t at_t
