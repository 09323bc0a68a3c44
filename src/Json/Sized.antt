-- ===== src/Json/Sized.antt =====
-- The documents that are read without undefined behaviour, and readers that are defined.
use Prim.Native.String.{String}
use text.Mathlib.Text.{◌==◌}
use text.Mathlib.TextEquality.{eq_iff}
use config_wp.Base.{
  some_injective, ◌≡◌, refl, sym, ap, ◌∙◌, subst, Bool, true, false, ◌||◌, ◌⊎◌, inl, inr, some,
  Bool-cases, if◌then◌else◌,
}
use config_wp.Json.{
  Json, Members, Items, number, array, object, no_members, member, no_items, item, get_object_item,
  fits_int,
}
use config_wp.Json.Enums.{Patched, ok, malformed, undefined, ◌>>=◌}

-- The fields that hold any uint32_t, which no code casts to int.
unfoldable pub is_wide : String → Bool
is_wide key =
    key == "limit" || key == "period_us" || key == "sync_window_us" || key == "producer_emcy_cob_id"

-- The numbers fit an int, but for those of the wide fields.
abbrev mutual
  pub IsSized : Json → Type 0
  IsSized (number v) = fits_int v ≡ true
  IsSized (array items) = AreSized items
  IsSized (object obj) = HasSized obj
  IsSized _ = Unit

  pub AreSized : Items → Type 0
  AreSized no_items = Unit
  AreSized (item j rest) = IsSized j × AreSized rest

  pub HasSized : Members → Type 0
  HasSized no_members = Unit
  HasSized (member key j rest) = ((is_wide key ≡ true) ⊎ IsSized j) × HasSized rest

-- The reader is defined, and what it gives satisfies `P`.
abbrev pub Holds : {A : Type 0} → (A → Type 0) → Patched A → Type 0
Holds P (ok a) = P a
Holds P malformed = Unit
Holds P undefined = ⊥

pub holds_bind :
    {A B : Type 0} (P : A → Type 0) (Q : B → Type 0) (x : Patched A) (f : A → Patched B)
    → Holds P x
    → ((a : A) → P a → Holds Q (f a))
    → Holds Q (x >>= f)
holds_bind P Q (ok a) f h g = g a h
holds_bind P Q malformed f h g = tt
holds_bind P Q undefined f h g = elim h [ ]

IsSized-of :
    (k key : String) (i j : Json)
    → (is_wide k ≡ true) ⊎ IsSized i
    → k ≡ key
    → is_wide key ≡ false
    → i ≡ j
    → IsSized j
IsSized-of k key i j (inl wide) same narrow e = absurd (cc (wide, ap is_wide same, narrow))
IsSized-of k key i j (inr sized) same narrow e = subst IsSized e sized

pub holds_mono :
    {A : Type 0} (P Q : A → Type 0) (x : Patched A) → ((a : A) → P a → Q a) → Holds P x → Holds Q x
holds_mono P Q (ok a) f h = f a h
holds_mono P Q malformed f h = tt
holds_mono P Q undefined f h = h

-- A member that is found is sized, unless its field is wide.
pub item-IsSized :
    (obj : Members) (key : String) (j : Json)
    → HasSized obj
    → is_wide key ≡ false
    → get_object_item obj key ≡ some j
    → IsSized j
item-IsSized no_members key j h narrow e = absurd cc
item-IsSized (member k i rest) key j h narrow e = elim (Bool-cases (k == key)) [
  | inl same ↦ IsSized-of k key i j h.0 ((eq_iff k key).0 same) narrow (
      some_injective
        (ap (λ (b : Bool). if b then some i else get_object_item rest key) (sym same) ∙ e))
  | inr other ↦
      item-IsSized rest key j h.1 narrow
        (ap (λ (b : Bool). if b then some i else get_object_item rest key) (sym other) ∙ e)
]

-- An item under a key that is not wide.
pub narrow_IsSized :
    (key name : String) (j : Json)
    → (key == name) ≡ true
    → is_wide name ≡ false
    → (is_wide key ≡ true) ⊎ IsSized j
    → IsSized j
narrow_IsSized key name j same narrow h =
    IsSized-of key name j j h ((eq_iff key name).0 same) narrow refl
