-- ===== src/Config/Access/Laws.antt =====
-- What the getters and setters promise, whichever the array.
use config_wp.Base.{
  ℕ, ◌<◌, ◌≡◌, ◌≢◌, refl, ap, sym, ◌∙◌, Bool, true, Option, some, none, List, length, get_elem?,
  set, arith, not, leb, if◌then◌else◌, lt→leb, leb→lt, get_elem?-set_self, get_elem?-set_ne,
  Bool-cases, inl, inr,
}
use config_wp.Config.State.{
  Config, ConfigStatus, config_ok, err_not_initialised, err_index, err_invalid,
}
use config_wp.Config.Access.{got, copied, get_channel, set_channel, set_checked}
use config_wp.Config.Access.Channel.{Channel}

-- A getter that passes its checks copies the element.
pub get_copied :
    {A : Type 0} (c : Config) (count : ℕ) (xs : List A) (idx : ℕ)
    → c.initialised ≡ true
    → idx < count
    → get_channel c count xs idx true ≡ copied (get_elem? xs idx)
unfolding get_channel
get_copied c count xs idx on fits = rw (on, lt→leb idx count fits) refl

-- A setter that passes its checks stores the record.
pub set_stored :
    {A : Type 0} (c : Config) (count : ℕ) (validate : A → Bool) (f : A → Config) (idx : ℕ) (r : A)
    → c.initialised ≡ true
    → idx < count
    → validate r ≡ true
    → set_channel c count validate f idx (some r) ≡ (config_ok, f r)
unfolding set_channel
set_stored c count validate f idx r on fits valid =
    ap
      (λ (b : Bool).
        if not b then (err_not_initialised, c) else set_checked c count validate f idx (some r))
      on
    ∙ rw (lt→leb idx count fits, valid) refl

module _ {A : Type 0} (k : Channel A) (c : Config) (on : c.initialised ≡ true) (idx : ℕ)
    (fits : idx < k.count) where
  -- For each of the seven arrays of an initialised manager, where the array is full: a setter
  -- given an index of the array and a valid record returns CONFIG_OK, the getter then gives that
  -- record at that index, and at every other index of the array what it gave before.
  pub get-set :
      (r : A) (j : ℕ)
      → length (k.field c) ≡ k.count
      → k.validate r ≡ true
      → j < k.count
      → j ≢ idx
      → (d : Config) × (k.set_at c idx (some r) ≡ (config_ok, d))
        × (k.get_at d idx true ≡ got r)
        × (k.get_at d j true ≡ k.get_at c j true)
  get-set r j full valid inside ne =
      let d = k.put c (set (k.field c) idx r) in
      let on' = k.put-initialised c (set (k.field c) idx r) ∙ on in
      (
        d,
        k.set_is c idx (some r)
            ∙ set_stored c k.count k.validate (λ r. k.put c (set (k.field c) idx r)) idx r on fits
                valid,
        k.get_is d idx true
            ∙ get_copied d k.count (k.field d) idx on' fits
            ∙ ap (λ (xs : List A). copied (get_elem? xs idx))
                (k.field-put c (set (k.field c) idx r))
            ∙ ap copied (get_elem?-set_self (k.field c) idx r (omega arith)),
        k.get_is d j true
            ∙ get_copied d k.count (k.field d) j on' inside
            ∙ ap (λ (xs : List A). copied (get_elem? xs j)) (k.field-put c (set (k.field c) idx r))
            ∙ ap copied (get_elem?-set_ne (k.field c) idx j r (λ e. ne (sym e)))
            ∙ sym (k.get_is c j true ∙ get_copied c k.count (k.field c) j on inside),
      )

-- What a setter may have done: it refused and changed nothing, or it stored a valid record at an
-- index that the array has.
pub data SetOutcome {A : Type 0} (k : Channel A) (c : Config) (idx : ℕ) (input : Option A)
    : Type 0 where
  refuses :
      (status : ConfigStatus)
      → status ≢ config_ok
      → k.set_at c idx input ≡ (status, c)
      → SetOutcome k c idx input
  stores :
      (r : A)
      → input ≡ some r
      → c.initialised ≡ true
      → idx < k.count
      → k.validate r ≡ true
      → k.set_at c idx input ≡ (config_ok, k.put c (set (k.field c) idx r))
      → SetOutcome k c idx input

checked_outcome :
    {A : Type 0} (k : Channel A) (c : Config) (idx : ℕ) (input : Option A)
    → c.initialised ≡ true
    → k.set_at c idx input
      ≡ set_checked c k.count k.validate (λ r. k.put c (set (k.field c) idx r)) idx input
    → SetOutcome k c idx input
checked_outcome k c idx none on e = refuses err_invalid (λ h. cc) e
checked_outcome k c idx (some r) on e = elim (Bool-cases (leb k.count idx)) [
  | inl over ↦ refuses err_index (λ h. cc) (e ∙ rw over refl)
  | inr fits ↦ elim (Bool-cases (k.validate r)) [
    | inl valid ↦ stores r refl on (leb→lt k.count idx fits) valid (e ∙ rw (fits, valid) refl)
    | inr bad ↦ refuses err_invalid (λ h. cc) (e ∙ rw (fits, bad) refl)
  ]
]

-- Every call of one of the seven array setters, in any state, at any index, with any record or
-- none, either returns an error and changes nothing, or returns CONFIG_OK and stores the record,
-- which is valid, at an index within the array of an initialised manager.
pub set_outcome :
    {A : Type 0} (k : Channel A) (c : Config) (idx : ℕ) (input : Option A)
    → SetOutcome k c idx input
unfolding set_channel
set_outcome k c idx input = elim (Bool-cases c.initialised) [
  | inl on ↦ checked_outcome k c idx input on (
      k.set_is c idx input
      ∙ ap
          (λ (b : Bool).
            if not b
            then (err_not_initialised, c)
            else set_checked c k.count k.validate (λ r. k.put c (set (k.field c) idx r)) idx input)
          on)
  | inr off ↦
      refuses err_not_initialised (λ h. cc)
        (k.set_is c idx input
          ∙ ap
              (λ (b : Bool).
                if not b
                then (err_not_initialised, c)
                else set_checked c k.count k.validate (λ r. k.put c (set (k.field c) idx r)) idx
                    input)
              off)
]
