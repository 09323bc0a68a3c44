-- ===== src/Eeprom/Commit/Alone.antt =====
-- eeprom_task on its own: it empties the queue and saves.
use config_wp.Base.{
  suc, ◌≡◌, ◌⊎◌, inl, inr, refl, sym, ap, ◌∙◌, Bool, true, false, ◌||◌, Option, none, some, List,
  [], ◌∷◌, length,
}
use config_wp.Config.State.{Config}
use config_wp.Config.Lifecycle.{config_save}
use config_wp.Eeprom.Requests.{EepromReq, commit, field, process_request, drain}
use config_wp.Eeprom.Laws.{IsAccepted}
use config_wp.Eeprom.Progress.{process-Progress, or_true}
use config_wp.Eeprom.Queue.{
  EepromTask, Shared, waiting, draining, go_on, after_task_save, end_round, task_step, task_steps,
}
use config_wp.Eeprom.Commit.{Owes, has_commit}

-- The shared state in the middle of a round.
abbrev pub in_round : Shared → Config → List EepromReq → Bool → Shared
in_round s c queue dirty = record s {
  world = record s.world { config = c };
  queue = queue;
  task = draining dirty;
}

round_alone :
    (queue : List EepromReq) (s : Shared) (c : Config) (dirty : Bool)
    → IsAccepted c.cache
    → (x : Bool × Config) × (drain dirty c queue ≡ some x)
      × (task_steps (suc (length queue)) (some (in_round s c queue dirty))
          ≡ end_round x.0 (in_round s x.1 [] x.0))
      × IsAccepted x.1.cache
unfolding task_step drain
round_alone [] s c dirty h = ((dirty, c), refl, refl, h)
round_alone (req ∷ queue) s c dirty h =
    let ((more, d), one, (accepted, moved)) = process-Progress c req h in
    let (x, drains, runs, all) = round_alone queue s d (dirty || more) accepted in
    (
      x,
      rw (one, drain) drains,
      ap
            (λ o.
              task_steps (suc (length queue))
                (go_on (in_round s c (req ∷ queue) dirty) dirty queue o))
            one
          ∙ runs,
      all,
    )

some_pair : {A : Type 0} {b : Bool} {a : A} {x : Bool × A} → some (b, a) ≡ some x → b ≡ x.0
some_pair e = cc

-- A round with a commit in it ends dirty, and so does one that was dirty.
drain_dirty :
    (queue : List EepromReq) (c : Config) (dirty : Bool) (x : Bool × Config)
    → drain dirty c queue ≡ some x
    → (has_commit queue ≡ true) ⊎ (dirty ≡ true)
    → x.0 ≡ true
unfolding drain process_request
drain_dirty [] c dirty x e (inl h) = absurd cc
drain_dirty [] c dirty x e (inr h) = sym (some_pair e) ∙ h
drain_dirty (commit ∷ queue) c dirty x e h =
    drain_dirty queue c (dirty || true) x e (inr (or_true dirty))
drain_dirty (field type item param value ∷ queue) c dirty x e h =
    next (process_request c (field type item param value)) e h
      (λ d more f k. drain_dirty queue d (dirty || more) x f k)
  where
    next :
        (o : Option (Bool × Config))
        → (elim o [ none ↦ none | some (more, d) ↦ drain (dirty || more) d queue ]) ≡ some x
        → (has_commit queue ≡ true) ⊎ (dirty ≡ true)
        → ((d : Config) (more : Bool)
            → drain (dirty || more) d queue ≡ some x
            → (has_commit queue ≡ true) ⊎ ((dirty || more) ≡ true)
            → x.0 ≡ true)
        → x.0 ≡ true
    next none e h f = absurd cc
    next (some (more, d)) e (inl h) f = f d more e (inl h)
    next (some (more, d)) e (inr h) f = f d more e (inr (ap (λ b. b || more) h))

-- The task saves a cache that the validators accept, after as many steps as there are requests in
-- the queue, and one more.
abbrev pub Saves : Shared → Type 0
Saves s =
    (c : Config) × IsAccepted c.cache
    × (task_steps (suc (length s.queue)) (some s)
        ≡ after_task_save (in_round s c [] true) (config_save (record s.world { config = c })))

ends_dirty :
    (s : Shared) (x : Bool × Config)
    → x.0 ≡ true
    → end_round x.0 (in_round s x.1 [] x.0)
      ≡ after_task_save (in_round s x.1 [] true) (config_save (record s.world { config = x.1 }))
ends_dirty s (dirty, c) e = ap (λ b. end_round b (in_round s c [] b)) e

at-Saves :
    (s : Shared) (task : EepromTask) (queue : List EepromReq)
    → IsAccepted s.world.config.cache
    → (has_commit queue ≡ true) ⊎ (task ≡ draining true)
    → Saves (record s { task = task; queue = queue })
unfolding task_step drain
at-Saves s waiting [] h (inl owes) = absurd cc
at-Saves s waiting queue h (inr owes) = absurd cc
at-Saves s waiting (req ∷ queue) h (inl owes) =
    let ((more, d), one, (accepted, moved)) = process-Progress s.world.config req h in
    let (x, drains, runs, all) = round_alone queue s d more accepted in
    let dirty =
      drain_dirty (req ∷ queue) s.world.config false x (rw (one, drain) drains) (inl owes) in
    (
      x.1,
      all,
      ap (λ o. task_steps (suc (length queue)) (go_on s false queue o)) one
          ∙ runs
          ∙ ends_dirty s x dirty,
    )
at-Saves s (draining dirty) queue h owes =
    let (x, drains, runs, all) = round_alone queue s s.world.config dirty h in
    (x.1, all, runs ∙ ends_dirty s x (drain_dirty queue s.world.config dirty x drains (flag owes)))
  where
    flag :
        (has_commit queue ≡ true) ⊎ (draining dirty ≡ draining true)
        → (has_commit queue ≡ true) ⊎ (dirty ≡ true)
    flag (inl there) = inl there
    flag (inr same) = inr cc

-- With full arrays of records that the validators accept, and a commit in the queue or a round
-- that is dirty, eeprom_task alone, after as many steps as there are requests in the queue and one
-- more, has emptied the queue, is at the end of a dirty round and calls config_save on a cache
-- that the validators accept.
pub Owes-Saves : (s : Shared) → IsAccepted s.world.config.cache → Owes s → Saves s
Owes-Saves s h owes = at-Saves s s.task s.queue h owes
