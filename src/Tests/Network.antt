-- ===== src/Tests/Network.antt =====
-- Runs of the tasks together: a commit among other events, and a frame of the serial line.
use config_wp.Base.{
  ◌≡◌, ◌<◌, ◌≤◌, refl, sym, ap, subst, inl, inr, true, none, some, List, [], ◌∷◌, length, arith,
}
use config_wp.Config.State.{World, config_ok}
use config_wp.Config.Lifecycle.{config_save, config_init, config_deinit}
use config_wp.Config.Calls.{run_calls, IsValidCache}
use config_wp.Config.Boot.{IsRunning}
use config_wp.Config.Session.{init-calls}
use config_wp.Slot.Boot.{IsBlank}
use config_wp.Eeprom.Requests.{EepromReq, commit, field, io_di, process_request}
use config_wp.Eeprom.Queue.{
  Shared, waiting, draining, order, task_runs, run_events, run_event, task_step,
  queue_config_commit, after_task_save, run_from, task_steps,
}
use config_wp.Eeprom.Commit.{commit_not_lost}
use config_wp.Eeprom.Commit.Alone.{Saves, Owes-Saves}
use config_wp.Json.{Members, object, codes, no_members, member, array, item, no_items, fits_int}
use config_wp.Json.Report.{Report}
use config_wp.Json.Sized.{HasSized}
use config_wp.Json.Calls.{Reaches}
use config_wp.Comms.{
  Recv, received, interrupted, closed, receive, extract_cmd, send_all, took, again,
}
use config_wp.Comms.Frames.{receive-within}
use config_wp.Comms.Handlers.{ok_reply, uart_frame}
use config_wp.Json.Import.{Import, config_import_json}
use config_wp.Comms.Boots.{set_frame-Boots}
use config_wp.Comms.Saved.{set_frame, set_frame-Saves}
use config_wp.Tests.Manager.{
  started, started-IsValidCache, two_calls, two_calls-IsTyped, blank_storage,
}
use config_wp.Tests.Tasks.{ready, ready-IsAccepted, value}
use config_wp.Tests.Documents.{patch_9}

-- A manager that was started and changed by setter calls, and what its save leaves.
abbrev changed_world : World
changed_world = record started.0 { config = run_calls two_calls started.0.config }

abbrev saved_world :
    (t : World) × (u : World) × (config_save changed_world ≡ some (config_ok, t))
    × (config_init (config_deinit t) true ≡ some (config_ok, u))
    × (u.config.cache ≡ (run_calls two_calls started.0.config).cache)
    × IsValidCache u.config.cache
    × IsRunning u []
saved_world =
    init-calls started.0 [] two_calls started.4 started-IsValidCache two_calls-IsTyped
      (inl (subst IsBlank (sym started.3) blank_storage)) (omega arith)

abbrev shared_with : World → List EepromReq → Shared
shared_with w queue = record {
  world = w;
  has_queue = true;
  queue = queue;
  task = waiting;
  log = [];
}

-- The commit is taken off the queue, the queue is found empty, and the cache is saved.
committed :
    run_events (order true ∷ task_runs ∷ task_runs ∷ []) (shared_with changed_world [])
    ≡ some (record (shared_with saved_world.0 []) { log = config_ok ∷ [] })
unfolding run_events run_event task_step queue_config_commit process_request
committed =
    ap
      (λ o.
        run_from (run_events [])
          (after_task_save (record (shared_with changed_world []) { task = draining true }) o))
      saved_world.2

commit_not_lost_example : 0 < length (config_ok ∷ [])
commit_not_lost_example =
    commit_not_lost (shared_with changed_world [])
      (record (shared_with saved_world.0 []) { log = config_ok ∷ [] }) (task_runs ∷ task_runs ∷ [])
      refl committed refl refl

Owes-Saves_example : Saves (shared_with ready (field io_di 3 1 (value 7) ∷ commit ∷ []))
Owes-Saves_example =
    Owes-Saves (shared_with ready (field io_di 3 1 (value 7) ∷ commit ∷ [])) ready-IsAccepted
      (inl refl)

abbrev demo_root : Members
demo_root = member "di" (array (item (object patch_9) no_items)) no_members

demo_root-HasSized : HasSized demo_root
unfolding fits_int
demo_root-HasSized = (inr ((inr refl, (inr refl, tt)), tt), tt)

set_frame-Saves_example :
    (report : Report) × (t : Shared) × (uart_frame
        (λ j. none)
        none
        (λ text. some (object demo_root))
        true
        (set_frame (b'{' ∷ codes "...}"))
        (shared_with started.0 [])
      ≡ some (some (ok_reply report true), t))
    × Reaches started.0.config t.world.config
    × Saves t
set_frame-Saves_example =
    set_frame-Saves (λ j. none) none (λ text. some (object demo_root)) (shared_with started.0 [])
      b'{' (codes "...}") demo_root refl started-IsValidCache refl demo_root-HasSized

set_frame-Boots_example :
    (im : Import) × (t : Shared) × (v : Shared) × (u : World) × (config_import_json
        (λ text. some (object demo_root))
        started.0.config
        (some (b'{' ∷ codes "...}"))
      ≡ some (config_ok, im))
    × (uart_frame
          (λ j. none)
          none
          (λ text. some (object demo_root))
          true
          (set_frame (b'{' ∷ codes "...}"))
          (shared_with started.0 [])
        ≡ some (some (ok_reply im.report true), t))
    × (task_steps 2 (some t) ≡ some v)
    × (v.log ≡ config_ok ∷ [])
    × (config_init (config_deinit v.world) true ≡ some (config_ok, u))
    × (u.config.cache ≡ im.config.cache)
    × IsValidCache u.config.cache
set_frame-Boots_example =
    set_frame-Boots (λ j. none) none (λ text. some (object demo_root)) (shared_with started.0 []) []
      b'{' (codes "...}") demo_root refl refl refl started.4 started-IsValidCache
      (inl (subst IsBlank (sym started.3) blank_storage)) (omega arith) refl demo_root-HasSized

-- Three bytes arrive in two pieces, with an interruption between them.
abbrev pieces : List Recv
pieces = received (codes "AT") ∷ interrupted ∷ received (codes "\n") ∷ closed ∷ []

receive-within_example : length (codes "AT\n") ≤ 3
unfolding receive
receive-within_example = receive-within 3 pieces [] (codes "AT\n") (omega arith) refl

upper_cased :
    extract_cmd (codes " at+get_config \r\nrest") 64 ≡ (codes "AT+GET_CONFIG", codes "rest")
unfolding extract_cmd
upper_cased = refl

sent_in_pieces :
    send_all (took 1 ∷ again ∷ took 0 ∷ []) (codes "OK\n") [] ≡ some (true, codes "OK\n")
unfolding send_all
sent_in_pieces = refl
