-- ===== src/Json/Duplicates.antt =====
-- The records of one array that name a channel a second time.
use Prim.Native.String.{String}
use config_wp.Base.{
  ℕ, zero, suc, ◌%◌, ◌^◌, ◌<◌, ◌≡◌, refl, sym, ap, subst, ◌∙◌, Bool, true, false, not, ◌||◌, Option,
  none, some, List, [], ◌∷◌, length, get_or, set, arith, Bool-cases, inl, inr,
}
use config_wp.Base.Int.{pos}
use config_wp.Config.Access.Channel.{Channel}
use config_wp.Json.{
  Json, Members, Items, Number, null, bool, number, string, array, object, no_items, item,
  get_object_item, below, truncate, fits_int,
}
use config_wp.Json.Enums.{Patched, magnitude}
use config_wp.Json.Report.{duplicate_channel}
use config_wp.Json.Import.{
  ◌>>=◌, Import, Sweep, reject, apply_got, apply_index, marked, apply_channel, apply_object,
  apply_item, apply_items,
}

get_or-set_self : (xs : List Bool) (i : ℕ) → i < length xs → get_or (set xs i true) i false ≡ true
get_or-set_self [] i h = absurd (omega arith)
get_or-set_self (x ∷ xs) zero h = refl
get_or-set_self (x ∷ xs) (suc i) h = get_or-set_self xs i (omega arith)

get_or-set_keeps :
    (xs : List Bool) (i j : ℕ) → get_or xs j false ≡ true → get_or (set xs i true) j false ≡ true
get_or-set_keeps [] i j h = h
get_or-set_keeps (x ∷ xs) zero zero h = refl
get_or-set_keeps (x ∷ xs) zero (suc j) h = h
get_or-set_keeps (x ∷ xs) (suc i) zero h = h
get_or-set_keeps (x ∷ xs) (suc i) (suc j) h = get_or-set_keeps xs i j h

-- The bit of `j` is set, in what may be undefined.
abbrev IsMarked : ℕ → Option Sweep → Type 0
IsMarked j none = Unit
IsMarked j (some w) = get_or w.seen j false ≡ true

-- The channel that a number names, if it is in the range of the array.
abbrev pub channel_of : Number → ℕ
channel_of v = magnitude (truncate v) % 2 ^ 8

abbrev pub is_outside : Number → ℕ → Bool
is_outside v count = below v (pos 0) || not (below v (pos count))

module _ {A : Type 0} (arr_name : String) (k : Channel A) (patcher : Members → A → Patched A) where
  marked_keeps :
      (seen : List Bool) (o : Option Import) (j : ℕ)
      → get_or seen j false ≡ true
      → IsMarked j (marked arr_name k patcher seen o)
  marked_keeps seen none j h = tt
  marked_keeps seen (some s) j h = h

  index_keeps :
      (obj : Members) (i idx : ℕ) (w : Sweep) (j : ℕ)
      → get_or w.seen j false ≡ true
      → IsMarked j (apply_index arr_name k patcher obj i idx w)
  index_keeps obj i idx w j h = elim (Bool-cases (get_or w.seen idx false)) [
    | inl twice ↦ rw twice h
    | inr first ↦ rw first (
        marked_keeps (set w.seen idx true)
          (apply_got arr_name k patcher obj idx w.import (k.get_at w.import.config idx true)) j
          (get_or-set_keeps w.seen idx j h))
  ]

  channel_keeps :
      (obj : Members) (i : ℕ) (v : Number) (w : Sweep) (j : ℕ)
      → get_or w.seen j false ≡ true
      → IsMarked j (apply_channel arr_name k patcher obj i v w)
  channel_keeps obj i v w j h = elim (Bool-cases (is_outside v k.count)) [
    | inl out ↦ elim (Bool-cases (fits_int v)) [
      | inl small ↦ rw (out, small) h
      | inr large ↦ rw (out, large) tt
    ]
    | inr inside ↦ rw inside (index_keeps obj i (channel_of v) w j h)
  ]

  object_keeps :
      (obj : Members) (i : ℕ) (o : Option Json) (w : Sweep) (j : ℕ)
      → get_or w.seen j false ≡ true
      → IsMarked j (apply_object arr_name k patcher obj i o w)
  object_keeps obj i (some (number v)) w j h = channel_keeps obj i v w j h
  object_keeps obj i none w j h = h
  object_keeps obj i (some null) w j h = h
  object_keeps obj i (some (bool b)) w j h = h
  object_keeps obj i (some (string s)) w j h = h
  object_keeps obj i (some (array xs)) w j h = h
  object_keeps obj i (some (object m)) w j h = h

  item_keeps :
      (x : Json) (i : ℕ) (w : Sweep) (j : ℕ)
      → get_or w.seen j false ≡ true
      → IsMarked j (apply_item arr_name k patcher x i w)
  item_keeps (object obj) i w j h = object_keeps obj i (get_object_item obj "channel") w j h
  item_keeps null i w j h = h
  item_keeps (bool b) i w j h = h
  item_keeps (number v) i w j h = h
  item_keeps (string s) i w j h = h
  item_keeps (array xs) i w j h = h

  items_keep :
      (items : Items) (i : ℕ) (o : Option Sweep) (j : ℕ)
      → IsMarked j o
      → IsMarked j (o >>= λ w. apply_items arr_name k patcher items i w)
  unfolding apply_items
  items_keep items i none j h = tt
  items_keep no_items i (some w) j h = h
  items_keep (item x rest) i (some w) j h =
      items_keep rest (suc i) (apply_item arr_name k patcher x i w) j (item_keeps x i w j h)

  object_in_range :
      (obj : Members) (v : Number) (i : ℕ) (w : Sweep)
      → get_object_item obj "channel" ≡ some (number v)
      → is_outside v k.count ≡ false
      → apply_item arr_name k patcher (object obj) i w
        ≡ apply_index arr_name k patcher obj i (channel_of v) w
  object_in_range obj v i w e inside =
      ap (λ (o : Option Json). apply_object arr_name k patcher obj i o w) e ∙ rw inside refl

  index_marks :
      (obj : Members) (i idx : ℕ) (w : Sweep)
      → idx < length w.seen
      → IsMarked idx (apply_index arr_name k patcher obj i idx w)
  index_marks obj i idx w fits = elim (Bool-cases (get_or w.seen idx false)) [
    | inl twice ↦ rw twice twice
    | inr first ↦ rw first (
        marked_keeps (set w.seen idx true)
          (apply_got arr_name k patcher obj idx w.import (k.get_at w.import.config idx true)) idx
          (get_or-set_self w.seen idx fits))
  ]

  -- In APPLY_ARRAY, once an object has named a channel in the range of the array, any later object
  -- that names the same channel, after any entries in between, is counted as rejected, its error
  -- is kept if it is the first, and it changes nothing of the manager.
  pub first_wins :
      (a b : Members) (v u : Number) (middle : Items) (i j : ℕ) (w end : Sweep)
      → get_object_item a "channel" ≡ some (number v)
      → is_outside v k.count ≡ false
      → get_object_item b "channel" ≡ some (number u)
      → is_outside u k.count ≡ false
      → channel_of u ≡ channel_of v
      → channel_of v < length w.seen
      → apply_items arr_name k patcher (item (object a) middle) i w ≡ some end
      → apply_item arr_name k patcher (object b) j end
        ≡ some (record end {
          import = reject (duplicate_channel arr_name j (channel_of v)) end.import;
        })
  unfolding apply_items
  first_wins a b v u middle i j w end a_is v_in b_is u_in same fits run =
      let one = apply_item arr_name k patcher (object a) i w in
      let marked_one : IsMarked (channel_of v) one =
        subst (IsMarked (channel_of v)) (sym (object_in_range a v i w a_is v_in))
          (index_marks a i (channel_of v) w fits) in
      let seen =
        subst (IsMarked (channel_of v)) run
          (items_keep middle (suc i) one (channel_of v) marked_one) in
      object_in_range b u j end b_is u_in
      ∙ ap (λ (idx : ℕ). apply_index arr_name k patcher b j idx end) same
      ∙ rw seen refl
