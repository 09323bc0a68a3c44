-- ===== src/Comms/Handlers.antt =====
-- What the serial line and the task of src/external_comms.c do with a frame or a message. A reply is
-- the message's format with its arguments. `posted` is whether the EEPROM manager's queue had room.
use Prim.Native.String.{String}
use config_wp.Base.{
  ℕ, Bool, true, false, not, ◌||◌, Option, none, some, List, [], ◌∷◌, ◌++◌, if◌then◌else◌,
}
use config_wp.Config.State.{Config, ConfigStatus, config_ok}
use config_wp.Json.{Json, codes}
use config_wp.Json.Enums.{equal}
use config_wp.Json.Build.{c_string}
use config_wp.Json.Report.{Message, Report}
use config_wp.Json.Import.{Import, config_import_json, is_ok}
use config_wp.Json.Export.{config_export_json}
use config_wp.Eeprom.Queue.{Shared, queue_config_commit}
use config_wp.Comms.{extract_cmd}

pub data Reply : Type 0 where
  ok_line unknown_command missing_payload : Reply
  document : List ℕ → Reply
  export_failed : ConfigStatus → Reply
  import_failed : ConfigStatus → Option Message → Reply
  -- The counts accepted, rejected and unknown_keys, and whether persist is "queued" or "FAIL".
  applied : ℕ → ℕ → ℕ → Bool → Reply

abbrev pub tx_buf_bytes : ℕ
tx_buf_bytes = 16384

abbrev pub exported : Option (ConfigStatus × Option (List ℕ)) → Option Reply
exported none = none
exported (some (config_ok, some text)) = some (document text)
exported (some (status, text)) = some (export_failed status)

unfoldable pub handle_get : (Json → Option (List ℕ)) → Option Json → Config → Option Reply
handle_get print on_null c = exported (config_export_json print on_null c true true tx_buf_bytes)

abbrev pub with_import : Shared → Import → Shared
with_import s im = record s { world = record s.world { config = im.config } }

abbrev pub ok_reply : Report → Bool → Reply
ok_reply report done = applied report.accepted report.rejected report.unknown_keys done

abbrev pub queued : Report → Bool × Shared → Reply × Shared
queued report (done, s) = (ok_reply report done, s)

-- On what config_import_json returned.
abbrev pub after_import : Bool → Shared → Option (ConfigStatus × Import) → Option (Reply × Shared)
after_import posted s none = none
after_import posted s (some (status, im)) =
    if not (is_ok status)
    then some (import_failed status im.report.first_error, with_import s im)
    else some (queued im.report (queue_config_commit posted (with_import s im)))

unfoldable pub handle_set :
    (List ℕ → Option Json) → Bool → List ℕ → Shared → Option (Reply × Shared)
handle_set parse posted [] s = some (missing_payload, s)
handle_set parse posted (b ∷ payload) s =
    after_import posted s (config_import_json parse s.world.config (some (b ∷ payload)))

abbrev pub beside : Shared → Option Reply → Option (Reply × Shared)
beside s none = none
beside s (some reply) = some (reply, s)

abbrev pub cmd_bytes : ℕ
cmd_bytes = 64

-- strcmp(cmd, "...") == 0
abbrev is_cmd : List ℕ → String → Bool
is_cmd cmd name = equal (c_string cmd) (codes name)

module _ (print : Json → Option (List ℕ)) (on_null : Option Json)
    (parse : List ℕ → Option Json) where
  unfoldable pub dispatch : Bool → List ℕ → List ℕ → Shared → Option (Reply × Shared)
  unfolding handle_get handle_set
  dispatch posted cmd payload s =
      if is_cmd cmd "AT+GET_CONFIG"
      then beside s (handle_get print on_null s.world.config)
      else if is_cmd cmd "AT+SET_CONFIG"
      then handle_set parse posted payload s
      else if is_cmd cmd "AT"
      then some (ok_line, s)
      else some (unknown_command, s)

  abbrev pub dispatch_line : Bool → Shared → List ℕ × List ℕ → Option (Reply × Shared)
  dispatch_line posted s (cmd, payload) = dispatch posted cmd payload s

  -- uart_sim_task, on the bytes of one connection; no reply to an empty frame.
  unfoldable pub uart_frame : Bool → List ℕ → Shared → Option (Option Reply × Shared)
  unfolding dispatch
  uart_frame posted [] s = some (none, s)
  uart_frame posted (b ∷ rx) s = elim (dispatch_line posted s (extract_cmd (b ∷ rx) cmd_bytes)) [
    | none ↦ none
    | some (reply, t) ↦ some (some reply, t)
  ]

-- ext_task, on one message; a commit is ordered if the import returned CONFIG_OK.
abbrev pub after_ext : Bool → Shared → Option (ConfigStatus × Import) → Option Shared
after_ext posted s none = none
after_ext posted s (some (status, im)) =
    if is_ok status
    then some (queue_config_commit posted (with_import s im)).1
    else some (with_import s im)

unfoldable pub ext_message :
    (List ℕ → Option Json) → Bool → Option (List ℕ) → Shared → Option Shared
ext_message parse posted none s = some s
ext_message parse posted (some []) s = some s
ext_message parse posted (some (b ∷ json)) s =
    after_ext posted s (config_import_json parse s.world.config (some (b ∷ json)))

-- The queue of external_comms.c: whether it exists, and what it holds.
pub record ExtQueue : Type 0 where
  pub created : Bool
  pub messages : List (List ℕ)

abbrev pub external_comms_init : ExtQueue → ExtQueue
external_comms_init q = if q.created then q else record { created = true; messages = [] }

-- The text that the pointer and the length give, and whether xQueueSend found room.
unfoldable pub external_comms_submit : Bool → Option (List ℕ) → ExtQueue → Bool × ExtQueue
external_comms_submit posted none q = (false, q)
external_comms_submit posted (some []) q = (false, q)
external_comms_submit posted (some (b ∷ json)) q =
    if not q.created || not posted
    then (false, q)
    else (true, record q { messages = q.messages ++ (b ∷ json) ∷ [] })
