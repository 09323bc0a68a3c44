-- ===== src/Json/Restore/Whole.antt =====
-- An export of one manager, imported into another.
use config_wp.Base.{
  ℕ, ◌≡◌, refl, ap, ◌∙◌, Bool, true, Option, none, some, List, length, not, if◌then◌else◌, ◌+◌, ◌<◌,
  le→ltb, ne→==, arith,
}
use config_wp.Base.Int.{pos}
use config_wp.Types.{SystemConfig}
use config_wp.Config.State.{
  Cache, Config, ConfigStatus, config_ok, err_invalid, err_not_initialised,
}
use config_wp.Config.Validate.{validate_system}
use config_wp.Config.Access.{config_get_system, config_set_system, Got, got, set_system_checked}
use config_wp.Config.Access.Channel.{
  di_channel, do_channel, tc_channel, ai_channel, ao_channel, pcnt_channel, pwm_channel,
}
use config_wp.Config.Calls.{IsValidCache}
use config_wp.Config.Decode.{with_system}
use config_wp.Json.{Json, Members, object, array, number, member, no_members, of_int}
use config_wp.Json.Build.{
  build_di, build_do, build_tc, build_ai, build_ao, build_pcnt, build_pwm, build_system,
  system_members,
}
use config_wp.Json.Report.{Report, report_reset, count_accepted, system_setter_rejected}
use config_wp.Json.Import.{
  ◌>>=◌, Import, apply_array, import_system, import_member, import_members, import_parsed, imported,
  config_import_json, system_got, system_patched, finish_set,
}
use config_wp.Json.Export.{export_system, export_members, config_export_json, copy_out}
use config_wp.Json.RoundTrip.Outputs.{patch_system-build_system}
use config_wp.Json.Restore.{items_of, export_array_lem, repeat}
use config_wp.Json.Restore.Apply.{stored_in}
use config_wp.Json.Restore.Arrays.{
  IsPortable, restore_di, restore_do, restore_tc, restore_ai, restore_ao, restore_pcnt, restore_pwm,
}

abbrev root_of : Option Json → Cache → Members
root_of on_null v = member "format" (number (of_int (pos 2))) (
    member "system" (build_system on_null v.system) (
      member "di" (array (items_of (build_di on_null) 0 v.di)) (
        member "do" (array (items_of (build_do on_null) 0 v.do_)) (
          member "tc" (array (items_of (build_tc on_null) 0 v.tc)) (
            member "ai" (array (items_of (build_ai on_null) 0 v.ai)) (
              member "ao" (array (items_of (build_ao on_null) 0 v.ao)) (
                member "pcnt" (array (items_of (build_pcnt on_null) 0 v.pcnt))
                  (member "pwm" (array (items_of (build_pwm on_null) 0 v.pwm)) no_members))))))))

bind_step :
    {A B : Type 0} {x : Option A} (f : A → Option B) {a : A} {y : Option B}
    → x ≡ some a
    → f a ≡ y
    → x >>= f ≡ y
bind_step f e g = ap (λ x. x >>= f) e ∙ g

get_system : (c : Config) → c.initialised ≡ true → config_get_system c true ≡ got c.cache.system
unfolding config_get_system
get_system c on = rw on refl

set_system :
    (c : Config) (r : SystemConfig)
    → c.initialised ≡ true
    → validate_system r ≡ true
    → config_set_system c (some r) ≡ (config_ok, with_system c r)
unfolding config_set_system
set_system c r on valid =
    ap (λ (b : Bool). if not b then (err_not_initialised, c) else set_system_checked c (some r)) on
    ∙ rw valid refl

export_root :
    (on_null : Option Json) (c : Config)
    → c.initialised ≡ true
    → IsValidCache c.cache
    → export_members on_null c ≡ some (root_of on_null c.cache)
unfolding export_members di_channel do_channel tc_channel ai_channel ao_channel pcnt_channel
    pwm_channel
export_root on_null c on h =
    let pwm_root = member "pwm" (array (items_of (build_pwm on_null) 0 c.cache.pwm)) no_members in
    let pcnt_root = member "pcnt" (array (items_of (build_pcnt on_null) 0 c.cache.pcnt)) pwm_root in
    let ao_root = member "ao" (array (items_of (build_ao on_null) 0 c.cache.ao)) pcnt_root in
    let ai_root = member "ai" (array (items_of (build_ai on_null) 0 c.cache.ai)) ao_root in
    let tc_root = member "tc" (array (items_of (build_tc on_null) 0 c.cache.tc)) ai_root in
    let do_root = member "do" (array (items_of (build_do on_null) 0 c.cache.do_)) tc_root in
    let di_root = member "di" (array (items_of (build_di on_null) 0 c.cache.di)) do_root in
    bind_step _ (export_array_lem pwm_channel c on "pwm" (build_pwm on_null) no_members h.6.0) (
      bind_step _ (export_array_lem pcnt_channel c on "pcnt" (build_pcnt on_null) pwm_root h.5.0) (
        bind_step _ (export_array_lem ao_channel c on "ao" (build_ao on_null) pcnt_root h.4.0) (
          bind_step _ (export_array_lem ai_channel c on "ai" (build_ai on_null) ao_root h.3.0) (
            bind_step _ (export_array_lem tc_channel c on "tc" (build_tc on_null) ai_root h.2.0) (
              bind_step _ (export_array_lem do_channel c on "do" (build_do on_null) tc_root h.1.0) (
                bind_step _ (export_array_lem di_channel c on "di" (build_di on_null) do_root h.0.0)
                  (ap
                    (λ (g : Got SystemConfig).
                      some (
                        member "format" (number (of_int (pos 2)))
                          (export_system on_null g di_root)))
                    (get_system c on))))))))

restore_system :
    (on_null : Option Json) (v : Cache) (s : Import)
    → IsPortable v
    → s.config.initialised ≡ true
    → import_system (build_system on_null v.system) s
      ≡ some (record { config = with_system s.config v.system; report = count_accepted s.report })
unfolding import_system build_system
restore_system on_null v s h on =
    ap (λ (g : Got SystemConfig). system_got (system_members on_null v.system) s g)
      (get_system s.config on)
    ∙ ap (system_patched s)
        (patch_system-build_system on_null v.system s.config.cache.system h.valid.7 h.valid.8)
    ∙ ap (λ (r : ConfigStatus × Config). some (finish_set system_setter_rejected s r))
        (set_system s.config v.system on h.valid.8)

-- What importing the whole of a cache leaves.
abbrev pub replaced : Cache → Import → Import
replaced v s = record {
  config = record s.config { cache = v };
  report = repeat 57 count_accepted s.report;
}

restore_members :
    (on_null : Option Json) (v : Cache) (s : Import)
    → IsPortable v
    → s.config.initialised ≡ true
    → IsValidCache s.config.cache
    → import_members (root_of on_null v) (root_of on_null v) s ≡ some (replaced v s)
unfolding import_members import_member apply_array di_channel do_channel tc_channel ai_channel
    ao_channel pcnt_channel pwm_channel
restore_members on_null v s h on full =
    let s0 : Import = record {
      config = with_system s.config v.system;
      report = count_accepted s.report;
    } in
    let s_di = stored_in di_channel v.di di_channel.count s0 in
    let s_do = stored_in do_channel v.do_ do_channel.count s_di in
    let s_tc = stored_in tc_channel v.tc tc_channel.count s_do in
    let s_ai = stored_in ai_channel v.ai ai_channel.count s_tc in
    let s_ao = stored_in ao_channel v.ao ao_channel.count s_ai in
    let s_pcnt = stored_in pcnt_channel v.pcnt pcnt_channel.count s_ao in
    let s_pwm = stored_in pwm_channel v.pwm pwm_channel.count s_pcnt in
    bind_step _ (restore_system on_null v s h on) (
      bind_step _ (restore_di on_null v s0 h on full.0.0) (
        bind_step _ (restore_do on_null v s_di h on full.1.0) (
          bind_step _ (restore_tc on_null v s_do h on full.2.0) (
            bind_step _ (restore_ai on_null v s_tc h on full.3.0) (
              bind_step _ (restore_ao on_null v s_ai h on full.4.0) (
                bind_step _ (restore_pcnt on_null v s_ao h on full.5.0)
                  (bind_step _ (restore_pwm on_null v s_pcnt h on full.6.0) (refl))))))))

-- What the report of such an import says.
abbrev pub all_accepted : Report
all_accepted = record report_reset { accepted = 57 }

-- For two initialised managers with full arrays of valid records, where every name of the first is
-- zeros after its terminator and none of its thermocouples is in kelvin, and a cJSON that prints
-- the tree of the export to a text and parses that text to the tree: config_export_json of the
-- first into a buffer with room for the text and its terminator returns CONFIG_OK and the text,
-- and config_import_json of the text into the second returns CONFIG_OK, makes its cache that of
-- the first, changes nothing else of it, and reports 57 accepted records and no error.
pub export-import :
    (print : Json → Option (List ℕ)) (parse : List ℕ → Option Json) (on_null : Option Json)
    (c d : Config) (room : ℕ) (text : List ℕ)
    → c.initialised ≡ true
    → d.initialised ≡ true
    → IsPortable c.cache
    → IsValidCache d.cache
    → ((root : Members)
        → export_members on_null c ≡ some root
        → (print (object root) ≡ some text) × (parse text ≡ some (object root)))
    → length text < room
    → (config_export_json print on_null c true true room ≡ some (config_ok, some text))
      × (config_import_json parse d (some text)
          ≡ some
              (config_ok, record { config = record d { cache = c.cache }; report = all_accepted }))
unfolding config_export_json config_import_json import_parsed
export-import print parse on_null c d room text c_on d_on h full reads fits =
    let is_root = export_root on_null c c_on h.valid in
    let (printed, parsed) = reads (root_of on_null c.cache) is_root in
    let s : Import = record { config = d; report = report_reset } in
    (
      ap
            (λ (b : Bool).
              if b
              then some (err_invalid, none)
              else export_members on_null c >>= λ root. some (copy_out room (print (object root))))
            (ne→== 0 room (omega arith))
          ∙ bind_step _ is_root (
              ap (λ (o : Option (List ℕ)). some (copy_out room o)) printed
              ∙ rw (le→ltb (length text + 1) room (omega arith)) refl),
      ap (λ (j : Option Json). import_parsed j s) parsed
          ∙ ap imported (restore_members on_null c.cache s h d_on full),
    )
