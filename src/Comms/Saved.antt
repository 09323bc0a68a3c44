-- ===== src/Comms/Saved.antt =====
-- A configuration that is sent over the serial line: from the frame to the save.
use config_wp.Base.{
  ℕ, ◌≡◌, refl, ap, ◌∙◌, Bool, true, false, not, Option, none, some, List, [], ◌∷◌, ◌++◌, All, inl,
  length, if◌then◌else◌,
}
use config_wp.Config.State.{Cache, config_ok}
use config_wp.Config.Calls.{IsArray, IsValidCache}
use config_wp.Json.{Json, Members, object, codes}
use config_wp.Json.Build.{c_string}
use config_wp.Json.Report.{Report}
use config_wp.Json.Sized.{HasSized}
use config_wp.Json.Import.{Import, config_import_json}
use config_wp.Json.Calls.{Reaches}
use config_wp.Json.Calls.Document.{config_import_json-object}
use config_wp.Eeprom.Laws.{IsAccepted}
use config_wp.Eeprom.Queue.{Shared, queue_config_commit}
use config_wp.Eeprom.Requests.{commit}
use config_wp.Eeprom.Commit.{has_commit-last}
use config_wp.Eeprom.Commit.Alone.{Saves, Owes-Saves}
use config_wp.Comms.{extract_cmd}
use config_wp.Comms.Handlers.{
  Reply, ok_reply, after_import, with_import, handle_set, dispatch, dispatch_line, uart_frame,
}

all_valid :
    {A : Type 0} (P : A → Type 0) (validate : A → Bool) (xs : List A)
    → All (λ r. P r × (validate r ≡ true)) xs
    → All (λ r. validate r ≡ true) xs
all_valid P validate [] h = tt
all_valid P validate (x ∷ xs) h = (h.0.1, all_valid P validate xs h.1)

valid_array :
    {A : Type 0} (P : A → Type 0) (validate : A → Bool) (n : ℕ) (xs : List A)
    → IsArray P validate n xs
    → (length xs ≡ n) × All (λ r. validate r ≡ true) xs
valid_array P validate n xs (full, all) = (full, all_valid P validate xs all)

valid-IsAccepted : (v : Cache) → IsValidCache v → IsAccepted v
valid-IsAccepted v h = (
  valid_array _ _ _ v.di h.0,
  valid_array _ _ _ v.do_ h.1,
  valid_array _ _ _ v.tc h.2,
  valid_array _ _ _ v.ai h.3,
  valid_array _ _ _ v.ao h.4,
  valid_array _ _ _ v.pcnt h.5,
  valid_array _ _ _ v.pwm h.6,
  h.8,
)

-- The bytes of a frame that sets the configuration.
abbrev pub set_frame : List ℕ → List ℕ
set_frame json = codes "AT+SET_CONFIG\n" ++ json

set_line : (json : List ℕ) → extract_cmd (set_frame json) 64 ≡ (codes "AT+SET_CONFIG", json)
unfolding extract_cmd
set_line json = refl

commit_posted :
    (u : Shared)
    → u.has_queue ≡ true
    → queue_config_commit true u ≡ (true, record u { queue = u.queue ++ commit ∷ [] })
unfolding queue_config_commit
commit_posted u on =
    ap
      (λ (b : Bool).
        if not b then (false, u) else (true, record u { queue = u.queue ++ commit ∷ [] }))
      on

module _ (print : Json → Option (List ℕ)) (on_null : Option Json)
    (parse : List ℕ → Option Json) where
  dispatch_set :
      (posted : Bool) (b : ℕ) (json : List ℕ) (s : Shared)
      → dispatch print on_null parse posted (codes "AT+SET_CONFIG") (b ∷ json) s
        ≡ after_import posted s (config_import_json parse s.world.config (some (b ∷ json)))
  unfolding dispatch handle_set c_string
  dispatch_set posted b json s = refl

  abbrev answered : Option (Reply × Shared) → Option (Option Reply × Shared)
  answered none = none
  answered (some (reply, t)) = some (some reply, t)

  -- Where the import returns CONFIG_OK, the reply says that the commit is queued, and it is.
  pub frame_ordered :
      (s : Shared) (b : ℕ) (json : List ℕ) (im : Import)
      → s.has_queue ≡ true
      → config_import_json parse s.world.config (some (b ∷ json)) ≡ some (config_ok, im)
      → uart_frame print on_null parse true (set_frame (b ∷ json)) s
        ≡ some (
          some (ok_reply im.report true),
          record (with_import s im) { queue = s.queue ++ commit ∷ [] },
        )
  unfolding uart_frame
  frame_ordered s b json im on imports =
      ap (λ line. answered (dispatch_line print on_null parse true s line)) (set_line (b ∷ json))
      ∙ ap answered (dispatch_set true b json s ∙ ap (after_import true s) imports)
      ∙ ap (λ (r : Bool × Shared). some (some (ok_reply im.report r.0), r.1))
          (commit_posted (with_import s im) on)

  -- Where the EEPROM manager's queue exists and the cache is full arrays of records that are in
  -- range and valid, the serial line on a frame AT+SET_CONFIG, a newline and a text that is not
  -- empty and that cJSON parses to an object whose numbers fit an int (but for the four fields
  -- that hold any uint32_t), with room in the queue: it replies with the report and that the
  -- commit is queued, the manager is left as some calls of the setters leave it, and eeprom_task
  -- alone, after as many steps as there are requests in the queue and one more, calls config_save
  -- on a cache that the validators accept.
  pub set_frame-Saves :
      (s : Shared) (b : ℕ) (json : List ℕ) (root : Members)
      → s.has_queue ≡ true
      → IsValidCache s.world.config.cache
      → parse (b ∷ json) ≡ some (object root)
      → HasSized root
      → (report : Report) × (t : Shared) × (uart_frame print on_null parse true
            (set_frame (b ∷ json))
            s
          ≡ some (some (ok_reply report true), t))
        × Reaches s.world.config t.world.config
        × Saves t
  set_frame-Saves s b json root on valid parsed sized =
      let (im, imports, reaches) =
        config_import_json-object parse s.world.config (b ∷ json) root parsed sized valid in
      let t : Shared = record (with_import s im) { queue = s.queue ++ commit ∷ [] } in
      (
        im.report,
        t,
        frame_ordered s b json im on imports,
        reaches,
        Owes-Saves t (valid-IsAccepted im.config.cache reaches.3) (inl (has_commit-last s.queue)),
      )
