-- ===== src/Json/Calls.antt =====
-- The import as a sequence of setter calls: one array.
pub mod Item
pub mod Targets
pub mod Document
use Prim.Native.String.{String}
use config_wp.Base.{
  ℕ, zero, suc, ◌%◌, ◌^◌, ◌<◌, ◌≤◌, ◌≡◌, refl, sym, ap, subst, ◌∙◌, Bool, true, false, not, ◌||◌,
  Option, none, some, List, [], ◌∷◌, ◌++◌, length, get_elem?, get_or, set, All, All-append, arith,
  Bool-cases, inl, inr, get_elem?-lt, if◌then◌else◌,
}
use config_wp.Base.Int.{pos}
use config_wp.Config.State.{Config, ConfigStatus, config_ok, err_not_initialised}
use config_wp.Config.Access.{Got, refused, got, fault, copied, get_channel}
use config_wp.Config.Access.Channel.{Channel}
use config_wp.Config.Access.Laws.{get_copied}
use config_wp.Config.Calls.{SetCall, run_call, run_calls, IsTyped, IsValidCache}
use config_wp.Config.Calls.Keeps.{calls-Keeps}
use config_wp.Json.{
  Json, Members, Items, Number, null, bool, number, string, array, object, no_items, item,
  get_object_item, below, truncate, fits_int,
}
use config_wp.Json.Enums.{Patched, ok, malformed, undefined, magnitude}
use config_wp.Json.Sized.{IsSized, AreSized, HasSized, Holds, is_wide, item-IsSized}
use config_wp.Json.Report.{
  Message, setter_rejected, channel_out_of_range, duplicate_channel, missing_channel,
}
use config_wp.Json.Import.{
  ◌>>=◌, Import, Sweep, is_ok, reject, finish_set, apply_patched, apply_got, apply_index, marked,
  apply_channel, apply_object, apply_item, apply_items, apply_found, swept,
}

-- Setter calls with records that IsTyped allows take `c` to `d`, a valid state.
abbrev pub Reaches : Config → Config → Type 0
Reaches c d =
    (calls : List SetCall) × (d ≡ run_calls calls c) × All IsTyped calls × IsValidCache d.cache

abbrev pub Follows : Config → Option Import → Type 0
Follows c none = ⊥
Follows c (some s) = Reaches c s.config

abbrev pub Sweeps : Config → Option Sweep → Type 0
Sweeps c none = ⊥
Sweeps c (some w) = Reaches c w.import.config

pub Reaches-refl : (c : Config) → IsValidCache c.cache → Reaches c c
Reaches-refl c h = ([], refl, tt, h)

pub Reaches-call :
    (c : Config) (call : SetCall)
    → IsTyped call
    → IsValidCache c.cache
    → Reaches c (run_call call c).1
Reaches-call c call t h =
    let typed : All IsTyped (call ∷ []) = (t, tt) in
    (call ∷ [], refl, typed, (calls-Keeps (call ∷ []) c typed h).0)

run_calls-append :
    (xs ys : List SetCall) (c : Config) → run_calls (xs ++ ys) c ≡ run_calls ys (run_calls xs c)
run_calls-append [] ys c = refl
run_calls-append (x ∷ xs) ys c = run_calls-append xs ys (run_call x c).1

pub Reaches-trans : (c d e : Config) → Reaches c d → Reaches d e → Reaches c e
Reaches-trans c d e (xs, to_d, xs_typed, d_valid) (ys, to_e, ys_typed, e_valid) = (
  xs ++ ys,
  to_e ∙ ap (run_calls ys) to_d ∙ sym (run_calls-append xs ys c),
  All-append IsTyped xs ys xs_typed ys_typed,
  e_valid,
)

-- `none` does not occur, and what follows goes on from the state reached.
pub Follows-bind :
    (c : Config) (o : Option Import) (f : Import → Option Import)
    → Follows c o
    → ((s : Import) → IsValidCache s.config.cache → Follows s.config (f s))
    → Follows c (o >>= f)
Follows-bind c none f h g = elim h [ ]
Follows-bind c (some s) f h g = follows_from c s (f s) h (g s h.3)
  where
    follows_from :
        (c : Config) (s : Import) (o : Option Import)
        → Reaches c s.config
        → Follows s.config o
        → Follows c o
    follows_from c s none h k = k
    follows_from c s (some t) h k = Reaches-trans c s.config t.config h k

pub finish_set_config :
    (m : Message) (s : Import) (r : ConfigStatus × Config) → (finish_set m s r).config ≡ r.1
finish_set_config m s (status, c) = elim (Bool-cases (is_ok status)) [
  | inl done ↦ rw done refl
  | inr failed ↦ rw failed refl
]

-- What a getter may give, of an array that is full: a refusal or a record that satisfies `P`.
abbrev pub Gives : {A : Type 0} → (A → Type 0) → Got A → Type 0
Gives P (refused status) = Unit
Gives P (got v) = P v
Gives P fault = ⊥

all_at :
    {A : Type 0} (P : A → Type 0) (xs : List A) (i : ℕ)
    → All P xs
    → i < length xs
    → Gives P (copied (get_elem? xs i))
all_at P [] i h fits = absurd (omega arith)
all_at P (x ∷ xs) zero h fits = h.0
all_at P (x ∷ xs) (suc i) h fits = all_at P xs i h.1 (omega arith)

get_off :
    (A : Type 0) (c : Config) (count : ℕ) (xs : List A) (idx : ℕ)
    → c.initialised ≡ false
    → get_channel c count xs idx true ≡ refused err_not_initialised
unfolding get_channel
get_off A c count xs idx off = rw off refl

pub channel-Gives :
    {A : Type 0} (P : A → Type 0) (c : Config) (count : ℕ) (xs : List A) (idx : ℕ)
    → All P xs
    → length xs ≡ count
    → idx < count
    → Gives P (get_channel c count xs idx true)
channel-Gives {A = A} P c count xs idx all full fits = elim (Bool-cases c.initialised) [
  | inl on ↦
      subst (Gives P) (sym (get_copied c count xs idx on fits)) (all_at P xs idx all (omega arith))
  | inr off ↦ subst (Gives P) (sym (get_off A c count xs idx off)) tt
]
