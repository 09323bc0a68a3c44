-- ===== src/Json/Restore.antt =====
-- An array that was exported, imported again: one turn of each loop after the other.
pub mod Apply
pub mod Arrays
pub mod Whole
use Prim.Native.String.{String}
use config_wp.Base.{
  ℕ, zero, suc, ◌+◌, ◌-◌, ◌%◌, ◌^◌, ◌<◌, ◌≤◌, ◌≡◌, refl, sym, ap, subst, ◌∙◌, Bool, true, false,
  not, ◌||◌, Option, none, some, List, [], ◌∷◌, ◌++◌, length, get_elem?, get_or, set, replicate,
  All, arith, append_assoc, length-append, if◌then◌else◌,
}
use config_wp.Base.Int.{pos}
use config_wp.Config.State.{Config, config_ok}
use config_wp.Config.Access.{Got, got, copied, get_channel}
use config_wp.Config.Access.Channel.{Channel}
use config_wp.Config.Access.Laws.{get_copied, set_stored}
use config_wp.Json.{
  Json, Members, Items, number, object, array, no_items, item, member, get_object_item, of_int,
  below, truncate, fits_int,
}
use config_wp.Json.Enums.{Patched, ok}
use config_wp.Json.Report.{Report, count_accepted}
use config_wp.Json.Import.{◌>>=◌, Import, Sweep, apply_items, apply_item}
use config_wp.Json.Export.{export_items, export_got, export_array}

pub get_elem?-append :
    {A : Type 0} (xs : List A) (y : A) (ys : List A) (i : ℕ)
    → i ≡ length xs
    → get_elem? (xs ++ y ∷ ys) i ≡ some y
get_elem?-append [] y ys zero e = refl
get_elem?-append [] y ys (suc i) e = absurd (omega arith)
get_elem?-append (x ∷ xs) y ys zero e = absurd (omega arith)
get_elem?-append (x ∷ xs) y ys (suc i) e = get_elem?-append xs y ys i (omega arith)

pub set-append :
    {A : Type 0} (xs : List A) (y z : A) (ys : List A) (i : ℕ)
    → i ≡ length xs
    → set (xs ++ y ∷ ys) i z ≡ xs ++ z ∷ ys
set-append [] y z ys zero e = refl
set-append [] y z ys (suc i) e = absurd (omega arith)
set-append (x ∷ xs) y z ys zero e = absurd (omega arith)
set-append (x ∷ xs) y z ys (suc i) e = ap (λ t. x ∷ t) (set-append xs y z ys i (omega arith))

-- The items of the records from index `i` on.
abbrev pub items_of : {A : Type 0} → (ℕ → A → Json) → ℕ → List A → Items
items_of build i [] = no_items
items_of build i (x ∷ xs) = item (build i x) (items_of build (suc i) xs)

abbrev pub repeat : {A : Type 0} → ℕ → (A → A) → A → A
repeat zero f a = a
repeat (suc n) f a = repeat n f (f a)

module _ {A : Type 0} (k : Channel A) (c : Config) (on : c.initialised ≡ true) where
  pub get_lem :
      (before after : List A) (x : A) (i : ℕ)
      → k.field c ≡ before ++ x ∷ after
      → i ≡ length before
      → i < k.count
      → k.get_at c i true ≡ got x
  get_lem before after x i e i_is fits =
      k.get_is c i true
      ∙ get_copied c k.count (k.field c) i on fits
      ∙ ap (λ (xs : List A). copied (get_elem? xs i)) e
      ∙ ap copied (get_elem?-append before x after i i_is)

  pub set_lem :
      (before after : List A) (x y : A) (i : ℕ)
      → k.field c ≡ before ++ x ∷ after
      → i ≡ length before
      → i < k.count
      → k.validate y ≡ true
      → k.set_at c i (some y) ≡ (config_ok, k.put c (before ++ y ∷ after))
  set_lem before after x y i e i_is fits valid =
      k.set_is c i (some y)
      ∙ set_stored c k.count k.validate (λ r. k.put c (set (k.field c) i r)) i y on fits valid
      ∙ ap (λ (xs : List A). (config_ok, k.put c xs))
          (ap (λ (xs : List A). set xs i y) e ∙ set-append before x y after i i_is)

  export_rest :
      (build : ℕ → A → Json) (before after : List A) (n i : ℕ)
      → k.field c ≡ before ++ after
      → n ≡ length after
      → i ≡ length before
      → i + n ≡ k.count
      → export_items k build c n i ≡ some (items_of build i after)
  unfolding export_items
  export_rest build before [] zero i e n_is i_is full = refl
  export_rest build before [] (suc n) i e n_is i_is full = absurd (omega arith)
  export_rest build before (x ∷ after) zero i e n_is i_is full = absurd (omega arith)
  export_rest build before (x ∷ after) (suc n) i e n_is i_is full =
      let fits : i < k.count = omega arith in
      let rest =
        export_rest build (before ++ x ∷ []) after n (suc i)
          (e ∙ sym (append_assoc before (x ∷ []) after)) (omega arith)
          (omega (arith, length-append before (x ∷ []))) (omega arith) in
      ap (λ (o : Option Items). o >>= λ rest. export_got (build i) (k.get_at c i true) rest) rest
      ∙ ap (λ (g : Got A). export_got (build i) g (items_of build (suc i) after))
          (get_lem before after x i e i_is fits)

  pub export_items_lem :
      (build : ℕ → A → Json)
      → length (k.field c) ≡ k.count
      → export_items k build c k.count 0 ≡ some (items_of build 0 (k.field c))
  export_items_lem build full =
      export_rest build [] (k.field c) k.count 0 refl (sym full) refl (omega arith)

  pub export_array_lem :
      (name : String) (build : ℕ → A → Json) (rest : Members)
      → length (k.field c) ≡ k.count
      → export_array name k build c rest
        ≡ some (member name (array (items_of build 0 (k.field c))) rest)
  unfolding export_array
  export_array_lem name build rest full =
      ap (λ (o : Option Items). o >>= λ items. some (member name (array items) rest))
        (export_items_lem build full)
