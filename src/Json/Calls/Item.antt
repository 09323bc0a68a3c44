-- ===== src/Json/Calls/Item.antt =====
-- The import as a sequence of setter calls: the records of one array.
use Prim.Native.String.{String}
use config_wp.Base.{
  ℕ, zero, suc, ◌%◌, ◌^◌, ◌<◌, ◌≡◌, refl, sym, ap, subst, ◌∙◌, Bool, true, false, not, ◌||◌, Option,
  none, some, List, length, get_or, set, replicate, All, arith, Bool-cases, inl, inr,
}
use config_wp.Base.Int.{pos}
use config_wp.Config.State.{Config, ConfigStatus}
use config_wp.Config.Access.{Got, refused, got, fault}
use config_wp.Config.Access.Channel.{Channel}
use config_wp.Config.Calls.{SetCall, run_call, IsTyped, IsValidCache}
use config_wp.Json.{
  Json, Members, Items, Number, null, bool, number, string, array, object, no_items, item,
  get_object_item, below, truncate, fits_int,
}
use config_wp.Json.Enums.{Patched, ok, malformed, undefined, magnitude}
use config_wp.Json.Sized.{IsSized, AreSized, HasSized, Holds, is_wide, item-IsSized}
use config_wp.Json.Report.{setter_rejected}
use config_wp.Json.Import.{
  ◌>>=◌, Import, Sweep, apply_patched, apply_got, apply_index, marked, apply_channel, apply_object,
  apply_item, apply_items, apply_found, swept,
}
use config_wp.Json.Calls.{
  Reaches, Follows, Sweeps, Gives, Reaches-refl, Reaches-call, Reaches-trans, finish_set_config,
  channel-Gives,
}

-- An array of the cache with what its records, its setter and its patcher are known to do.
pub record Target {A : Type 0} (k : Channel A) (patcher : Members → A → Patched A) : Type 1 where
  pub call : ℕ → Option A → SetCall
  pub Wire : A → Type 0
  pub is_call :
      (c : Config) (idx : ℕ) (input : Option A) → run_call (call idx input) c ≡ k.set_at c idx input
  pub typed : (idx : ℕ) (r : A) → Wire r → IsTyped (call idx (some r))
  pub stored : (c : Config) → IsValidCache c.cache → All Wire (k.field c)
  pub full : (c : Config) → IsValidCache c.cache → length (k.field c) ≡ k.count
  pub kept : (obj : Members) (r : A) → HasSized obj → Wire r → Holds Wire (patcher obj r)

channel_range :
    (negative : Bool) (whole : ℕ) (fraction : Bool) (count : ℕ)
    → let v : Number = record { negative = negative; whole = whole; fraction = fraction } in
      (below v (pos 0) || not (below v (pos count))) ≡ false
      → 0 < count
      → magnitude (truncate v) % 2 ^ 8 < count
unfolding below truncate
channel_range true zero fraction count h some_room = omega arith
channel_range true (suc whole) fraction count h some_room = omega arith
channel_range false whole fraction count h some_room = ground arith

module _ {A : Type 0} (arr_name : String) (k : Channel A) (patcher : Members → A → Patched A)
    (t : Target k patcher) (some_room : 0 < k.count) where
  patched-Follows :
      (idx : ℕ) (s : Import) (p : Patched A)
      → IsValidCache s.config.cache
      → Holds t.Wire p
      → Follows s.config (apply_patched arr_name k patcher idx s p)
  patched-Follows idx s (ok v) valid h =
      subst (Reaches s.config)
        (ap (λ (r : ConfigStatus × Config). r.1) (t.is_call s.config idx (some v))
          ∙ sym
              (finish_set_config (setter_rejected arr_name idx) s (k.set_at s.config idx (some v))))
        (Reaches-call s.config (t.call idx (some v)) (t.typed idx v h) valid)
  patched-Follows idx s malformed valid h = Reaches-refl s.config valid
  patched-Follows idx s undefined valid h = h

  got-Follows :
      (obj : Members) (idx : ℕ) (s : Import) (g : Got A)
      → HasSized obj
      → IsValidCache s.config.cache
      → Gives t.Wire g
      → Follows s.config (apply_got arr_name k patcher obj idx s g)
  got-Follows obj idx s (refused status) sized valid h = Reaches-refl s.config valid
  got-Follows obj idx s (got v) sized valid h =
      patched-Follows idx s (patcher obj v) valid (t.kept obj v sized h)
  got-Follows obj idx s fault sized valid h = h

  marked-Sweeps :
      (c : Config) (seen : List Bool) (o : Option Import)
      → Follows c o
      → Sweeps c (marked arr_name k patcher seen o)
  marked-Sweeps c seen none h = h
  marked-Sweeps c seen (some s) h = h

  index-Sweeps :
      (obj : Members) (i idx : ℕ) (w : Sweep)
      → HasSized obj
      → IsValidCache w.import.config.cache
      → idx < k.count
      → Sweeps w.import.config (apply_index arr_name k patcher obj i idx w)
  index-Sweeps obj i idx w sized valid fits = elim (Bool-cases (get_or w.seen idx false)) [
    | inl twice ↦ rw twice (Reaches-refl w.import.config valid)
    | inr first ↦
        let c = w.import.config in
        let gives = subst (Gives t.Wire) (sym (k.get_is c idx true)) (
          channel-Gives t.Wire c k.count (k.field c) idx (t.stored c valid) (t.full c valid)
            fits) in
        rw first (
          marked-Sweeps c (set w.seen idx true)
            (apply_got arr_name k patcher obj idx w.import (k.get_at c idx true))
            (got-Follows obj idx w.import (k.get_at c idx true) sized valid gives))
  ]

  channel-Sweeps :
      (obj : Members) (i : ℕ) (v : Number) (w : Sweep)
      → HasSized obj
      → fits_int v ≡ true
      → IsValidCache w.import.config.cache
      → Sweeps w.import.config (apply_channel arr_name k patcher obj i v w)
  channel-Sweeps obj i v w sized small valid =
      elim (Bool-cases (below v (pos 0) || not (below v (pos k.count)))) [
        | inl out ↦ rw (out, small) (Reaches-refl w.import.config valid)
        | inr inside ↦ rw inside (
            index-Sweeps obj i (magnitude (truncate v) % 2 ^ 8) w sized valid
              (channel_range v.negative v.whole v.fraction k.count inside some_room))
      ]

  object-Sweeps :
      (obj : Members) (i : ℕ) (j : Option Json) (w : Sweep)
      → HasSized obj
      → ((x : Json) → j ≡ some x → IsSized x)
      → IsValidCache w.import.config.cache
      → Sweeps w.import.config (apply_object arr_name k patcher obj i j w)
  object-Sweeps obj i (some (number v)) w sized found valid =
      channel-Sweeps obj i v w sized (found (number v) refl) valid
  object-Sweeps obj i none w sized found valid = Reaches-refl w.import.config valid
  object-Sweeps obj i (some null) w sized found valid = Reaches-refl w.import.config valid
  object-Sweeps obj i (some (bool b)) w sized found valid = Reaches-refl w.import.config valid
  object-Sweeps obj i (some (string s)) w sized found valid = Reaches-refl w.import.config valid
  object-Sweeps obj i (some (array xs)) w sized found valid = Reaches-refl w.import.config valid
  object-Sweeps obj i (some (object m)) w sized found valid = Reaches-refl w.import.config valid

  item-Sweeps :
      (j : Json) (i : ℕ) (w : Sweep)
      → IsSized j
      → IsValidCache w.import.config.cache
      → Sweeps w.import.config (apply_item arr_name k patcher j i w)
  unfolding is_wide
  item-Sweeps (object obj) i w sized valid =
      object-Sweeps obj i (get_object_item obj "channel") w sized
        (λ x e. item-IsSized obj "channel" x sized refl e) valid
  item-Sweeps null i w sized valid = Reaches-refl w.import.config valid
  item-Sweeps (bool b) i w sized valid = Reaches-refl w.import.config valid
  item-Sweeps (number v) i w sized valid = Reaches-refl w.import.config valid
  item-Sweeps (string s) i w sized valid = Reaches-refl w.import.config valid
  item-Sweeps (array xs) i w sized valid = Reaches-refl w.import.config valid

  Sweeps-from :
      (c : Config) (w : Sweep) (o : Option Sweep)
      → Reaches c w.import.config
      → Sweeps w.import.config o
      → Sweeps c o
  Sweeps-from c w none h g = g
  Sweeps-from c w (some v) h g = Reaches-trans c w.import.config v.import.config h g

  Sweeps-bind :
      (c : Config) (o : Option Sweep) (f : Sweep → Option Sweep)
      → Sweeps c o
      → ((v : Sweep) → IsValidCache v.import.config.cache → Sweeps v.import.config (f v))
      → Sweeps c (o >>= f)
  Sweeps-bind c none f h g = elim h [ ]
  Sweeps-bind c (some v) f h g = Sweeps-from c v (f v) h (g v h.3)

  items_sweep :
      (items : Items) (i : ℕ) (w : Sweep)
      → AreSized items
      → IsValidCache w.import.config.cache
      → Sweeps w.import.config (apply_items arr_name k patcher items i w)
  unfolding apply_items
  items_sweep no_items i w sized valid = Reaches-refl w.import.config valid
  items_sweep (item j rest) i w sized valid =
      Sweeps-bind w.import.config (apply_item arr_name k patcher j i w)
        (λ v. apply_items arr_name k patcher rest (suc i) v) (item-Sweeps j i w sized.0 valid)
        (λ v v_valid. items_sweep rest (suc i) v sized.1 v_valid)

  swept-Follows :
      (c : Config) (o : Option Sweep) → Sweeps c o → Follows c (swept arr_name k patcher o)
  swept-Follows c none h = h
  swept-Follows c (some w) h = h

  -- On what a sized root has under the array's name.
  pub found-Follows :
      (j : Option Json) (s : Import)
      → ((x : Json) → j ≡ some x → IsSized x)
      → IsValidCache s.config.cache
      → Follows s.config (apply_found arr_name k patcher j s)
  found-Follows none s found valid = Reaches-refl s.config valid
  found-Follows (some null) s found valid = Reaches-refl s.config valid
  found-Follows (some (array items)) s found valid =
      let w : Sweep = record { seen = replicate 32 false; import = s } in
      swept-Follows s.config (apply_items arr_name k patcher items 0 w)
        (items_sweep items 0 w (found (array items) refl) valid)
  found-Follows (some (bool b)) s found valid = Reaches-refl s.config valid
  found-Follows (some (number v)) s found valid = Reaches-refl s.config valid
  found-Follows (some (string x)) s found valid = Reaches-refl s.config valid
  found-Follows (some (object m)) s found valid = Reaches-refl s.config valid
