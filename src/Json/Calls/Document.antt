-- ===== src/Json/Calls/Document.antt =====
-- The import as a sequence of setter calls: a whole document.
use Prim.Native.String.{String}
use text.Mathlib.Text.{◌==◌}
use config_wp.Base.{
  ap, ◌∙◌, ℕ, ◌≡◌, refl, sym, subst, Bool, true, false, Option, none, some, List, arith, Bool-cases,
  inl, inr, ◌⊎◌, if◌then◌else◌,
}
use config_wp.Types.{SystemConfig}
use config_wp.Types.Wire.{IsWireSystem}
use config_wp.Config.State.{Config, ConfigStatus, config_ok, err_invalid, err_codec}
use config_wp.Config.Access.{Got, refused, got, fault, config_get_system, config_set_system}
use config_wp.Config.Access.Channel.{
  di_channel, do_channel, tc_channel, ai_channel, ao_channel, pcnt_channel, pwm_channel,
}
use config_wp.Config.Calls.{IsValidCache, on_system}
use config_wp.Json.{
  Json, Members, no_members, member, null, bool, number, string, array, object, get_object_item,
}
use config_wp.Json.Enums.{Patched, ok, malformed, undefined}
use config_wp.Json.Patch.Records.{
  patch_di_record, patch_do_record, patch_tc_record, patch_ai_record, patch_ao_record,
  patch_pcnt_record, patch_pwm_record, patch_system_record,
}
use config_wp.Json.Report.{system_setter_rejected, report_reset}
use config_wp.Json.Sized.{IsSized, HasSized, Holds, is_wide, item-IsSized, narrow_IsSized}
use config_wp.Json.Wire.Outputs.{patch_system-IsWireSystem}
use config_wp.Json.Import.{
  Import, apply_array, import_system, import_member, import_members, import_parsed, imported,
  config_import_json, system_got, system_patched,
}
use config_wp.Json.Calls.{
  Reaches, Follows, Gives, Reaches-refl, Reaches-call, Follows-bind, finish_set_config,
}
use config_wp.Json.Calls.Item.{found-Follows}
use config_wp.Json.Calls.Targets.{
  di-Target, do-Target, tc-Target, ai-Target, ao-Target, pcnt-Target, pwm-Target,
}

system_patched-Follows :
    (s : Import) (p : Patched SystemConfig)
    → IsValidCache s.config.cache
    → Holds IsWireSystem p
    → Follows s.config (system_patched s p)
system_patched-Follows s (ok v) valid h =
    subst (Reaches s.config)
      (sym (finish_set_config system_setter_rejected s (config_set_system s.config (some v))))
      (Reaches-call s.config (on_system (some v)) h valid)
system_patched-Follows s malformed valid h = Reaches-refl s.config valid
system_patched-Follows s undefined valid h = h

system-Gives : (c : Config) → IsValidCache c.cache → Gives IsWireSystem (config_get_system c true)
unfolding config_get_system
system-Gives c h = elim (Bool-cases c.initialised) [ inl on ↦ rw on h.7 | inr off ↦ rw off tt ]

system_got-Follows :
    (obj : Members) (s : Import) (g : Got SystemConfig)
    → HasSized obj
    → IsValidCache s.config.cache
    → Gives IsWireSystem g
    → Follows s.config (system_got obj s g)
system_got-Follows obj s (refused status) sized valid h = Reaches-refl s.config valid
system_got-Follows obj s (got v) sized valid h =
    system_patched-Follows s (patch_system_record obj v) valid
      (patch_system-IsWireSystem obj v sized h)
system_got-Follows obj s fault sized valid h = h

system-Follows :
    (j : Json) (s : Import)
    → IsSized j
    → IsValidCache s.config.cache
    → Follows s.config (import_system j s)
unfolding import_system
system-Follows (object obj) s sized valid =
    system_got-Follows obj s (config_get_system s.config true) sized valid
      (system-Gives s.config valid)
system-Follows null s sized valid = Reaches-refl s.config valid
system-Follows (bool b) s sized valid = Reaches-refl s.config valid
system-Follows (number v) s sized valid = Reaches-refl s.config valid
system-Follows (string x) s sized valid = Reaches-refl s.config valid
system-Follows (array xs) s sized valid = Reaches-refl s.config valid

if_Follows :
    (c : Config) (b : Bool) (x y : Option Import)
    → (b ≡ true → Follows c x)
    → Follows c y
    → Follows c (if b then x else y)
if_Follows c true x y f h = f refl
if_Follows c false x y f h = h

member-Follows :
    (root : Members) (key : String) (child : Json) (s : Import)
    → HasSized root
    → (is_wide key ≡ true) ⊎ IsSized child
    → IsValidCache s.config.cache
    → Follows s.config (import_member root key child s)
unfolding import_member apply_array is_wide di_channel do_channel tc_channel ai_channel ao_channel
    pcnt_channel pwm_channel
member-Follows root key child s sized child_sized valid =
    if_Follows s.config (key == "format") _ _ (λ e. Reaches-refl s.config valid)
      (if_Follows s.config (key == "system") _ _
        (λ e. system-Follows child s (narrow_IsSized key "system" child e refl child_sized) valid)
        (if_Follows s.config (key == "di") _ _
          (λ e.
            found-Follows "di" di_channel patch_di_record di-Target (omega arith)
              (get_object_item root "di") s (λ x e. item-IsSized root "di" x sized refl e) valid)
          (if_Follows s.config (key == "do") _ _
            (λ e.
              found-Follows "do" do_channel patch_do_record do-Target (omega arith)
                (get_object_item root "do") s (λ x e. item-IsSized root "do" x sized refl e) valid)
            (if_Follows s.config (key == "tc") _ _
              (λ e.
                found-Follows "tc" tc_channel patch_tc_record tc-Target (omega arith)
                  (get_object_item root "tc") s (λ x e. item-IsSized root "tc" x sized refl e)
                  valid)
              (if_Follows s.config (key == "ai") _ _
                (λ e.
                  found-Follows "ai" ai_channel patch_ai_record ai-Target (omega arith)
                    (get_object_item root "ai") s (λ x e. item-IsSized root "ai" x sized refl e)
                    valid)
                (if_Follows s.config (key == "ao") _ _
                  (λ e.
                    found-Follows "ao" ao_channel patch_ao_record ao-Target (omega arith)
                      (get_object_item root "ao") s (λ x e. item-IsSized root "ao" x sized refl e)
                      valid)
                  (if_Follows s.config (key == "pcnt") _ _
                    (λ e.
                      found-Follows "pcnt" pcnt_channel patch_pcnt_record pcnt-Target (omega arith)
                        (get_object_item root "pcnt") s
                        (λ x e. item-IsSized root "pcnt" x sized refl e) valid)
                    (if_Follows s.config (key == "pwm") _ _
                      (λ e.
                        found-Follows "pwm" pwm_channel patch_pwm_record pwm-Target (omega arith)
                          (get_object_item root "pwm") s
                          (λ x e. item-IsSized root "pwm" x sized refl e) valid)
                      (Reaches-refl s.config valid)))))))))

members_follow :
    (root rest : Members) (s : Import)
    → HasSized root
    → HasSized rest
    → IsValidCache s.config.cache
    → Follows s.config (import_members root rest s)
unfolding import_members
members_follow root no_members s sized rest_sized valid = Reaches-refl s.config valid
members_follow root (member key child rest) s sized rest_sized valid =
    Follows-bind s.config (import_member root key child s) (λ t. import_members root rest t)
      (member-Follows root key child s sized rest_sized.0 valid)
      (λ t t_valid. members_follow root rest t sized rest_sized.1 t_valid)

-- The import returns, and setter calls explain the state that it leaves.
abbrev pub Ends : Config → Option (ConfigStatus × Import) → Type 0
Ends c o = (status : ConfigStatus) × (s : Import) × (o ≡ some (status, s)) × Reaches c s.config

parsed-Ends :
    (j : Option Json) (s : Import)
    → ((x : Json) → j ≡ some x → IsSized x)
    → IsValidCache s.config.cache
    → Ends s.config (import_parsed j s)
unfolding import_parsed
parsed-Ends none s sized valid = (err_codec, s, refl, Reaches-refl s.config valid)
parsed-Ends (some (object root)) s sized valid =
    imported_ends (import_members root root s)
      (members_follow root root s (sized (object root) refl) (sized (object root) refl) valid)
  where
    imported_ends : (o : Option Import) → Follows s.config o → Ends s.config (imported o)
    imported_ends none h = elim h [ ]
    imported_ends (some t) h = (config_ok, t, refl, h)
parsed-Ends (some null) s sized valid = (err_invalid, s, refl, Reaches-refl s.config valid)
parsed-Ends (some (bool b)) s sized valid = (err_invalid, s, refl, Reaches-refl s.config valid)
parsed-Ends (some (number v)) s sized valid = (err_invalid, s, refl, Reaches-refl s.config valid)
parsed-Ends (some (string x)) s sized valid = (err_invalid, s, refl, Reaches-refl s.config valid)
parsed-Ends (some (array xs)) s sized valid = (err_invalid, s, refl, Reaches-refl s.config valid)

-- From a manager with full arrays of records that are in range and valid, config_import_json on
-- any text, or on a null pointer, whatever cJSON parses it to, as long as the numbers of the
-- document fit an int (but for the four fields that hold any uint32_t): it returns a status
-- without undefined behaviour, and the state that it leaves is the one that some sequence of calls
-- of the eight setters, with records in the ranges of their C types, leaves, and is valid again.
pub config_import_json-Ends :
    (parse : List ℕ → Option Json) (c : Config) (json : Option (List ℕ))
    → ((text : List ℕ) (root : Json) → json ≡ some text → parse text ≡ some root → IsSized root)
    → IsValidCache c.cache
    → Ends c (config_import_json parse c json)
unfolding config_import_json
config_import_json-Ends parse c none sized valid =
    (err_invalid, record { config = c; report = report_reset }, refl, Reaches-refl c valid)
config_import_json-Ends parse c (some text) sized valid =
    parsed-Ends (parse text) (record { config = c; report = report_reset })
      (λ x e. sized text x refl e) valid

-- The import of a document that is a sized object returns CONFIG_OK.
pub config_import_json-object :
    (parse : List ℕ → Option Json) (c : Config) (text : List ℕ) (root : Members)
    → parse text ≡ some (object root)
    → HasSized root
    → IsValidCache c.cache
    → (im : Import) × (config_import_json parse c (some text) ≡ some (config_ok, im))
      × Reaches c im.config
unfolding config_import_json import_parsed
config_import_json-object parse c text root e sized valid =
    let s : Import = record { config = c; report = report_reset } in
    let (im, ran, reaches) =
      some_of c (import_members root root s) (members_follow root root s sized sized valid) in
    (im, ap (λ j. import_parsed j s) e ∙ ap imported ran, reaches)
  where
    some_of :
        (c : Config) (o : Option Import)
        → Follows c o
        → (im : Import) × (o ≡ some im) × Reaches c im.config
    some_of c none h = elim h [ ]
    some_of c (some im) h = (im, refl, h)
