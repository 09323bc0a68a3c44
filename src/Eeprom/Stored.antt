-- ===== src/Eeprom/Stored.antt =====
-- An accepted change of a field: what the getter gives afterwards.
use config_wp.Base.{ℕ, ◌<◌, ◌≡◌, ◌≢◌, ap, ◌∙◌, true, some, Option, length}
use config_wp.Config.State.{Config, ConfigStatus, config_ok}
use config_wp.Config.Access.{Got, got}
use config_wp.Config.Access.Channel.{Channel}
use config_wp.Config.Access.Laws.{get-set}
use config_wp.Eeprom.{apply_with, apply_changed}

module _ {A : Type 0} (k : Channel A) (c : Config) (on : c.initialised ≡ true)
    (full : length (k.field c) ≡ k.count) (idx : ℕ) (fits : idx < k.count) where
  -- For each of the seven arrays of an initialised manager, where the array is full, the index is
  -- one of the array, and the change of the record there makes a valid one: the applier returns
  -- CONFIG_OK, the getter then gives the changed record at that index, and at every other index of
  -- the array what it gave before.
  pub get-apply_with :
      (change : A → Option A) (r q : A) (j : ℕ)
      → k.get_at c idx true ≡ got r
      → change r ≡ some q
      → k.validate q ≡ true
      → j < k.count
      → j ≢ idx
      → (d : Config) × (apply_with c (k.get_at c idx true) change (k.set_at c idx)
          ≡ some (config_ok, d))
        × (k.get_at d idx true ≡ got q)
        × (k.get_at d j true ≡ k.get_at c j true)
  get-apply_with change r q j read changes valid inside ne =
      let (d, stores, here, there) = get-set k c on idx fits q j full valid inside ne in
      (
        d,
        ap (λ (g : Got A). apply_with c g change (k.set_at c idx)) read
            ∙ ap (λ (o : Option A). some (apply_changed c o (k.set_at c idx))) changes
            ∙ ap (λ (s : ConfigStatus × Config). some s) stores,
        here,
        there,
      )
