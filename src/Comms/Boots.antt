-- ===== src/Comms/Boots.antt =====
-- A configuration that is sent over the serial line: from the frame to the next boot.
use config_wp.Base.{
  ℕ, ◌+◌, ◌≤◌, ◌≡◌, refl, sym, ap, ◌∙◌, true, Option, some, List, [], ◌∷◌, ◌++◌, length,
}
use config_wp.Slot.{slot_payload_max_bytes}
use config_wp.Slot.Boot.{CanCommit}
use config_wp.Config.State.{Config, World, config_ok}
use config_wp.Config.Lifecycle.{config_save, config_init, config_deinit}
use config_wp.Config.Calls.{IsValidCache}
use config_wp.Config.Boot.{IsRunning}
use config_wp.Config.Session.{init-calls}
use config_wp.Config.Stream.{Entry, stream}
use config_wp.Json.{Json, Members, object}
use config_wp.Json.Sized.{HasSized}
use config_wp.Json.Import.{Import, config_import_json}
use config_wp.Json.Calls.Document.{config_import_json-object}
use config_wp.Eeprom.Requests.{EepromReq, commit, process_request}
use config_wp.Eeprom.Queue.{
  EepromTask, Shared, waiting, draining, after_task_save, task_turn, task_step, step_from,
  task_steps,
}
use config_wp.Comms.Handlers.{ok_reply, with_import, uart_frame}
use config_wp.Comms.Saved.{set_frame, frame_ordered}

-- A commit alone in the queue, and the task waiting: two steps save.
commit_alone :
    (t : Shared)
    → t.task ≡ waiting
    → t.queue ≡ commit ∷ []
    → task_steps 2 (some t)
      ≡ after_task_save (record t { queue = []; task = draining true }) (config_save t.world)
unfolding task_step process_request
commit_alone t idle one =
    ap (λ (task : EepromTask). step_from (task_turn task t.queue t)) idle
    ∙ ap (λ (queue : List EepromReq). step_from (task_turn waiting queue t)) one

module _ (print : Json → Option (List ℕ)) (on_null : Option Json)
    (parse : List ℕ → Option Json) where
  -- In a running manager with a valid cache, with storage in which a slot is active with a
  -- sequence number left, or no header is sane, preserved records that fit beside the cache, and
  -- eeprom_task waiting on an empty queue with room: after a frame AT+SET_CONFIG on the serial
  -- line, a newline and a text that is not empty and that cJSON parses to an object whose numbers
  -- fit an int (but for the four fields that hold any uint32_t), the import returns CONFIG_OK, the
  -- reply has its report and says that the commit is queued, eeprom_task saves in its next two
  -- steps and config_save returns CONFIG_OK, and config_init after a config_deinit returns
  -- CONFIG_OK with the cache that the import left, which is valid.
  pub set_frame-Boots :
      (s : Shared) (us : List Entry) (b : ℕ) (json : List ℕ) (root : Members)
      → s.has_queue ≡ true
      → s.task ≡ waiting
      → s.queue ≡ []
      → IsRunning s.world us
      → IsValidCache s.world.config.cache
      → CanCommit s.world.crc.table s.world.storage
      → 1697 + length (stream us) ≤ slot_payload_max_bytes
      → parse (b ∷ json) ≡ some (object root)
      → HasSized root
      → (im : Import) × (t : Shared) × (v : Shared) × (u : World) × (config_import_json parse
            s.world.config
            (some (b ∷ json))
          ≡ some (config_ok, im))
        × (uart_frame print on_null parse true (set_frame (b ∷ json)) s
            ≡ some (some (ok_reply im.report true), t))
        × (task_steps 2 (some t) ≡ some v)
        × (v.log ≡ s.log ++ config_ok ∷ [])
        × (config_init (config_deinit v.world) true ≡ some (config_ok, u))
        × (u.config.cache ≡ im.config.cache)
        × IsValidCache u.config.cache
  set_frame-Boots s us b json root on idle empty running valid can room parsed sized =
      let (im, imports, (calls, reached, typed, im_valid)) =
        config_import_json-object parse s.world.config (b ∷ json) root parsed sized valid in
      let t : Shared = record (with_import s im) { queue = s.queue ++ commit ∷ [] } in
      let (w, u, saves, starts, same, u_valid, u_running) =
        init-calls s.world us calls running valid typed can room in
      let v : Shared = record t {
        world = w;
        queue = [];
        task = waiting;
        log = s.log ++ config_ok ∷ [];
      } in
      let saved : config_save t.world ≡ some (config_ok, w) =
        ap (λ (c : Config). config_save (record s.world { config = c })) reached ∙ saves in
      (
        im,
        t,
        v,
        u,
        imports,
        frame_ordered print on_null parse s b json im on imports,
        commit_alone t idle (ap (λ (queue : List EepromReq). queue ++ commit ∷ []) empty)
            ∙ ap (after_task_save (record t { queue = []; task = draining true })) saved,
        refl,
        starts,
        same ∙ ap (λ (c : Config). c.cache) (sym reached),
        u_valid,
      )
