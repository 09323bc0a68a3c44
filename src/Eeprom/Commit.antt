-- ===== src/Eeprom/Commit.antt =====
-- What becomes of a commit that was queued.
pub mod Alone
use config_wp.Base.{
  ℕ, zero, suc, ◌+◌, ◌<◌, ◌≤◌, ◌≡◌, ◌⊎◌, inl, inr, refl, sym, ap, ◌∙◌, subst, Bool, true, false,
  not, ◌||◌, Option, none, some, List, [], ◌∷◌, ◌++◌, length, arith, length-append, Bool-cases,
  if◌then◌else◌,
}
use config_wp.Config.State.{Config, ConfigStatus, World}
use config_wp.Config.Lifecycle.{config_save}
use config_wp.Config.Calls.{SetCall, run_call}
use config_wp.Eeprom.{EepromValue}
use config_wp.Eeprom.Requests.{
  EepromReq, EepromConfigType, commit, field, process_request, drain, save_if_dirty, eeprom_round,
}
use config_wp.Eeprom.Laws.{IsAccepted}
use config_wp.Eeprom.Progress.{process-Progress}
use config_wp.Eeprom.Queue.{
  EepromTask, Shared, waiting, draining, send, queue_config_change, queue_config_commit, go_on,
  after_task_save, end_round, task_turn, task_step, step_from, task_steps, Event, change, order,
  call, task_runs, run_event, run_from, run_events,
}
use config_wp.Eeprom.Log.{Grows, events-Grow}
use config_wp.Eeprom.Progress.{or_true}

abbrev is_commit : EepromReq → Bool
is_commit commit = true
is_commit (field type item param value) = false

abbrev pub has_commit : List EepromReq → Bool
has_commit [] = false
has_commit (req ∷ reqs) = is_commit req || has_commit reqs

-- A save is due: a commit is in the queue, or the round is dirty.
abbrev pub Owes : Shared → Type 0
Owes s = (has_commit s.queue ≡ true) ⊎ (s.task ≡ draining true)

-- A save is due still, or one was done since `s`.
abbrev pub IsServed : Shared → Option Shared → Type 0
IsServed s none = Unit
IsServed s (some t) = (Owes t × (t.log ≡ s.log)) ⊎ (length s.log < length t.log)

has_commit-append : (xs ys : List EepromReq) → has_commit xs ≡ true → has_commit (xs ++ ys) ≡ true
has_commit-append [] ys h = absurd cc
has_commit-append (commit ∷ xs) ys h = refl
has_commit-append (field type item param value ∷ xs) ys h = has_commit-append xs ys h

-- A turn that takes a request off the queue.
go_on-IsServed :
    (s : Shared) (dirty : Bool) (req : EepromReq) (rest : List EepromReq)
    → (has_commit (req ∷ rest) ≡ true) ⊎ (dirty ≡ true)
    → IsServed s (go_on s dirty rest (process_request s.world.config req))
unfolding process_request
go_on-IsServed s dirty commit rest h = inl (inr (ap draining (or_true dirty)), refl)
go_on-IsServed s dirty (field type item param value) rest h =
    kept (process_request s.world.config (field type item param value)) h
  where
    kept :
        (o : Option (Bool × Config))
        → (has_commit rest ≡ true) ⊎ (dirty ≡ true)
        → IsServed s (go_on s dirty rest o)
    kept none h = tt
    kept (some (more, c)) (inl there) = inl (inl there, refl)
    kept (some (more, c)) (inr flag) = inl (inr (ap (λ b. draining (b || more)) flag), refl)

saved-IsServed : (s : Shared) (o : Option (ConfigStatus × World)) → IsServed s (after_task_save s o)
saved-IsServed s none = tt
saved-IsServed s (some (status, w)) = inr (omega (arith, length-append s.log (status ∷ [])))

turn-IsServed :
    (s : Shared) (task : EepromTask) (queue : List EepromReq)
    → (has_commit queue ≡ true) ⊎ (task ≡ draining true)
    → IsServed s (task_turn task queue s)
turn-IsServed s waiting [] (inl h) = absurd cc
turn-IsServed s waiting [] (inr h) = absurd cc
turn-IsServed s waiting (req ∷ rest) (inl h) = go_on-IsServed s false req rest (inl h)
turn-IsServed s waiting (req ∷ rest) (inr h) = absurd cc
turn-IsServed s (draining dirty) (req ∷ rest) (inl h) = go_on-IsServed s dirty req rest (inl h)
turn-IsServed s (draining dirty) (req ∷ rest) (inr h) = go_on-IsServed s dirty req rest (inr cc)
turn-IsServed s (draining true) [] h = saved-IsServed s (config_save s.world)
turn-IsServed s (draining false) [] (inl h) = absurd cc
turn-IsServed s (draining false) [] (inr h) = absurd cc

send-IsServed :
    (posted : Bool) (req : EepromReq) (s : Shared)
    → Owes s
    → IsServed s (some (send posted req s).1)
send-IsServed true req s (inl h) = inl (inl (has_commit-append s.queue (req ∷ []) h), refl)
send-IsServed true req s (inr h) = inl (inr h, refl)
send-IsServed false req s h = inl (h, refl)

if-IsServed :
    (s : Shared) (b : Bool) (x y : Bool × Shared)
    → IsServed s (some x.1)
    → IsServed s (some y.1)
    → IsServed s (some (if b then x else y).1)
if-IsServed s true x y h k = h
if-IsServed s false x y h k = k

event-IsServed : (e : Event) (s : Shared) → Owes s → IsServed s (run_event e s)
unfolding run_event task_step queue_config_change queue_config_commit
event-IsServed (change posted type item param value) s h =
    if-IsServed s _ (false, s) (send posted (field type item param value) s) (inl (h, refl))
      (send-IsServed posted (field type item param value) s h)
event-IsServed (order posted) s h =
    if-IsServed s _ (false, s) (send posted commit s) (inl (h, refl))
      (send-IsServed posted commit s h)
event-IsServed (call c) s h = inl (h, refl)
event-IsServed task_runs s h = turn-IsServed s s.task s.queue h

IsServed-later :
    (s t : Shared) (o : Option Shared) → length s.log < length t.log → Grows t o → IsServed s o
unfolding Grows
IsServed-later s t none h k = tt
IsServed-later s t (some u) h k = inr (omega arith)

IsServed-from : (s t : Shared) (o : Option Shared) → t.log ≡ s.log → IsServed t o → IsServed s o
IsServed-from s t none same h = tt
IsServed-from s t (some u) same (inl (owes, log)) = inl (owes, log ∙ same)
IsServed-from s t (some u) same (inr more) = inr (subst (λ l. length l < length u.log) same more)

events-AreServed : (es : List Event) (s : Shared) → Owes s → IsServed s (run_events es s)
unfolding run_events
events-AreServed [] s h = inl (h, refl)
events-AreServed (e ∷ es) s h =
    next (run_event e s) (event-IsServed e s h) (λ t k. events-AreServed es t k)
  where
    next :
        (o : Option Shared)
        → IsServed s o
        → ((t : Shared) → Owes t → IsServed t (run_events es t))
        → IsServed s (run_from (run_events es) o)
    next none k f = tt
    next (some t) (inl (owes, same)) f = IsServed-from s t (run_events es t) same (f t owes)
    next (some t) (inr more) f = IsServed-later s t (run_events es t) more (events-Grow es t)

pub has_commit-last : (xs : List EepromReq) → has_commit (xs ++ commit ∷ []) ≡ true
has_commit-last [] = refl
has_commit-last (commit ∷ xs) = refl
has_commit-last (field type item param value ∷ xs) = has_commit-last xs

idle_served :
    (s t : Shared)
    → IsServed s (some t)
    → t.task ≡ waiting
    → t.queue ≡ []
    → length s.log < length t.log
idle_served s t (inr more) idle empty = more
idle_served s t (inl (inl there, same)) idle empty = absurd (cc (sym there, ap has_commit empty))
idle_served s t (inl (inr dirty, same)) idle empty = absurd cc

-- After a QueueConfigCommit that was posted, and any events after it, in any order: requests that
-- are queued or refused, setter calls of other tasks, and steps of eeprom_task: if eeprom_task
-- then waits on an empty queue, it has printed the status of at least one config_save since the
-- commit.
pub commit_not_lost :
    (s t : Shared) (es : List Event)
    → s.has_queue ≡ true
    → run_events (order true ∷ es) s ≡ some t
    → t.task ≡ waiting
    → t.queue ≡ []
    → length s.log < length t.log
unfolding run_events run_event queue_config_commit
commit_not_lost s t es on run idle empty =
    let posted : Shared = record s { queue = s.queue ++ commit ∷ [] } in
    let first : run_event (order true) s ≡ some posted = rw on refl in
    let served = events-AreServed es posted (inl (has_commit-last s.queue)) in
    let ran = ap (run_from (run_events es)) (sym first) ∙ run in
    idle_served posted t (subst (IsServed posted) ran served) idle empty
