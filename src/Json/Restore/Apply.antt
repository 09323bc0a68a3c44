-- ===== src/Json/Restore/Apply.antt =====
-- APPLY_ARRAY on the items of an export: every record is accepted and the array becomes theirs.
use Prim.Native.String.{String}
use config_wp.Base.{
  ℕ, zero, suc, ◌+◌, ◌%◌, ◌^◌, ◌<◌, ◌≤◌, ◌≡◌, ◌≢◌, refl, sym, ap, ◌∙◌, Bool, true, false, not, ◌||◌,
  Option, some, List, [], ◌∷◌, ◌++◌, length, get_or, set, replicate, All, arith, append_assoc,
  length-append,
}
use config_wp.Base.Int.{pos}
use config_wp.Config.State.{Config, ConfigStatus}
use config_wp.Config.Access.{Got}
use config_wp.Config.Access.Channel.{Channel}
use config_wp.Json.{Json, Members, number, object, array, get_object_item, of_int, below, truncate}
use config_wp.Json.Enums.{Patched, ok, magnitude}
use config_wp.Json.Report.{count_accepted, setter_rejected}
use config_wp.Json.Import.{
  ◌>>=◌, Import, Sweep, apply_items, apply_item, apply_object, apply_got, apply_patched, marked,
  finish_set, apply_found, swept,
}
use config_wp.Json.Restore.{items_of, repeat, get_lem, set_lem}

get_or-set_ne :
    (xs : List Bool) (i j : ℕ) → i ≢ j → get_or (set xs i true) j false ≡ get_or xs j false
get_or-set_ne [] i j h = refl
get_or-set_ne (x ∷ xs) zero zero h = absurd (h refl)
get_or-set_ne (x ∷ xs) zero (suc j) h = refl
get_or-set_ne (x ∷ xs) (suc i) zero h = refl
get_or-set_ne (x ∷ xs) (suc i) (suc j) h = get_or-set_ne xs i j (λ e. h (ap suc e))

get_or-replicate : (n j : ℕ) → get_or (replicate n false) j false ≡ false
get_or-replicate zero j = refl
get_or-replicate (suc n) zero = refl
get_or-replicate (suc n) (suc j) = get_or-replicate n j

channel_inside :
    (i count : ℕ)
    → i < count
    → (below (of_int (pos i)) (pos 0) || not (below (of_int (pos i)) (pos count))) ≡ false
unfolding below
channel_inside i count h = ground arith

channel_index : (i : ℕ) → i < 32 → magnitude (truncate (of_int (pos i))) % 2 ^ 8 ≡ i
unfolding truncate
channel_index i h = ground arith

-- The array of `k` is `xs` now, and `n` records more were accepted.
abbrev pub stored_in : {A : Type 0} → Channel A → List A → ℕ → Import → Import
stored_in k xs n s = record {
  config = k.put s.config xs;
  report = repeat n count_accepted s.report;
}

abbrev sweep : List Bool → Import → Option Sweep
sweep seen s = some (record { seen = seen; import = s })

module _ {A : Type 0} (arr_name : String) (k : Channel A) (patcher : Members → A → Patched A)
    (members : ℕ → A → Members) (small : k.count ≤ 32)
    (numbered : (i : ℕ) (x : A)
      → get_object_item (members i x) "channel" ≡ some (number (of_int (pos i)))) where
  -- The record comes back from its object, whatever record it is patched over, and is valid.
  abbrev pub Returns : A → Type 0
  Returns x = ((i : ℕ) (old : A) → patcher (members i x) old ≡ ok x) × (k.validate x ≡ true)

  apply_one :
      (before after : List A) (x y : A) (i : ℕ) (w : Sweep)
      → w.import.config.initialised ≡ true
      → k.field w.import.config ≡ before ++ y ∷ after
      → i ≡ length before
      → i < k.count
      → get_or w.seen i false ≡ false
      → Returns x
      → apply_item arr_name k patcher (object (members i x)) i w
        ≡ sweep (set w.seen i true) (stored_in k (before ++ x ∷ after) 1 w.import)
  apply_one before after x y i w on e i_is fits unseen (back, valid) =
      let c = w.import.config in
      let m = members i x in
      ap (λ (j : Option Json). apply_object arr_name k patcher m i j w) (numbered i x)
      ∙ rw (channel_inside i k.count fits, channel_index i (omega arith), unseen) refl
      ∙ ap
          (λ (g : Got A).
            marked arr_name k patcher (set w.seen i true)
              (apply_got arr_name k patcher m i w.import g))
          (get_lem k c on before after y i e i_is fits)
      ∙ ap
          (λ (p : Patched A).
            marked arr_name k patcher (set w.seen i true)
              (apply_patched arr_name k patcher i w.import p))
          (back i y)
      ∙ ap
          (λ (r : ConfigStatus × Config).
            sweep (set w.seen i true) (finish_set (setter_rejected arr_name i) w.import r))
          (set_lem k c on before after y x i e i_is fits valid)

  apply_all :
      (before news olds : List A) (i : ℕ) (w : Sweep)
      → w.import.config.initialised ≡ true
      → k.field w.import.config ≡ before ++ olds
      → length news ≡ length olds
      → i ≡ length before
      → i + length news ≡ k.count
      → ((j : ℕ) → i ≤ j → get_or w.seen j false ≡ false)
      → All Returns news
      → (seen : List Bool) × (apply_items arr_name k patcher
            (items_of (λ i x. object (members i x)) i news)
            i
            w
          ≡ sweep seen (stored_in k (before ++ news) (length news) w.import))
  unfolding apply_items
  apply_all before [] [] i w on e same i_is full unseen all = (
    w.seen,
    ap (λ (c : Config). sweep w.seen (record w.import { config = c }))
        (sym (ap (k.put w.import.config) (sym e) ∙ k.put-field w.import.config)),
  )
  apply_all before [] (y ∷ olds) i w on e same i_is full unseen all = absurd (omega arith)
  apply_all before (x ∷ news) [] i w on e same i_is full unseen all = absurd (omega arith)
  apply_all before (x ∷ news) (y ∷ olds) i w on e same i_is full unseen all =
      let c = w.import.config in
      let here = before ++ x ∷ olds in
      let w' : Sweep = record { seen = set w.seen i true; import = stored_in k here 1 w.import } in
      let one =
        apply_one before olds x y i w on e i_is (omega arith) (unseen i (omega arith)) all.0 in
      let (seen, rest) =
        apply_all (before ++ x ∷ []) news olds (suc i) w' (k.put-initialised c here ∙ on)
          (k.field-put c here ∙ sym (append_assoc before (x ∷ []) olds)) (omega arith)
          (omega (arith, length-append before (x ∷ []))) (omega arith)
          (λ j h. get_or-set_ne w.seen i j (λ e. absurd (omega arith)) ∙ unseen j (omega arith))
          all.1 in
      (
        seen,
        ap
              (λ (o : Option Sweep). o >>= λ w.
                apply_items arr_name k patcher (items_of (λ i x. object (members i x)) (suc i) news)
                  (suc i) w)
              one
            ∙ rest
            ∙ ap
                (λ (c : Config). sweep seen (record {
                  config = c;
                  report = repeat (length news) count_accepted (count_accepted w.import.report);
                }))
                (k.put-put c here ((before ++ x ∷ []) ++ news)
                  ∙ ap (k.put c) (append_assoc before (x ∷ []) news)),
      )

  -- The whole array `olds` of the cache, from fresh bits.
  pub apply_array_lem :
      (news : List A) (s : Import)
      → s.config.initialised ≡ true
      → length (k.field s.config) ≡ k.count
      → length news ≡ k.count
      → All Returns news
      → apply_found arr_name k patcher
          (some (array (items_of (λ i x. object (members i x)) 0 news)))
          s
        ≡ some (stored_in k news k.count s)
  apply_array_lem news s on full same all =
      let w : Sweep = record { seen = replicate 32 false; import = s } in
      let (seen, swept_all) =
        apply_all [] news (k.field s.config) 0 w on refl (omega arith) refl (omega arith)
          (λ j h. get_or-replicate 32 j) all in
      ap (swept arr_name k patcher) swept_all ∙ ap (λ (n : ℕ). some (stored_in k news n s)) same
