-- ===== src/Eeprom/Progress.antt =====
-- Requests, queues of requests and rounds of the task: something was accepted, or nothing changed.
use config_wp.Base.{
  ◌≡◌, ◌⊎◌, inl, inr, refl, ap, sym, ◌∙◌, subst, Bool, true, false, some, List, [], ◌∷◌, ◌||◌,
}
use config_wp.Config.State.{Config, ConfigStatus, World, config_ok}
use config_wp.Config.Lifecycle.{config_save}
use config_wp.Eeprom.Requests.{
  EepromReq, commit, field, process_request, request_result, drain, save_if_dirty, after_save,
  eeprom_round,
}
use config_wp.Eeprom.Laws.{IsAccepted, Outcome, apply_field-Applies}

-- What a request, or several, did: something was accepted, or nothing has changed.
abbrev pub Progress : Config → Bool × Config → Type 0
Progress c (dirty, d) = IsAccepted d.cache × ((dirty ≡ true) ⊎ (d ≡ c))

result-Progress :
    (c : Config) (r : ConfigStatus × Config)
    → IsAccepted c.cache
    → Outcome c r
    → (x : Bool × Config) × (request_result (some r) ≡ some x) × Progress c x
result-Progress c (config_ok, d) h (inl (failed, same)) = absurd (failed refl)
result-Progress c (config_ok, d) h (inr (ok, accepted)) = ((true, d), refl, (accepted, inl refl))
result-Progress c (status, d) h (inl (failed, same)) =
    ((false, d), refl, (subst (λ (x : Config). IsAccepted x.cache) (sym same) h, inr same))
result-Progress c (status, d) h (inr (ok, accepted)) = absurd cc

-- From full arrays of records that their validators accept, process_request of any request
-- returns, leaves such arrays, and reports true, or has changed nothing.
pub process-Progress :
    (c : Config) (req : EepromReq)
    → IsAccepted c.cache
    → (x : Bool × Config) × (process_request c req ≡ some x) × Progress c x
unfolding process_request
process-Progress c commit h = ((true, c), refl, (h, inl refl))
process-Progress c (field type item param v) h =
    let (r, e, out) = apply_field-Applies c type item param v h in
    let (x, result, progress) = result-Progress c r h out in
    (x, ap request_result e ∙ result, progress)

pub or_true : (b : Bool) → (b || true) ≡ true
or_true true = refl
or_true false = refl

or_false : (b : Bool) → (b || false) ≡ b
or_false true = refl
or_false false = refl

-- The progress of a request and of those behind it.
joined :
    (dirty more : Bool) (c d : Config) (x : Bool × Config)
    → (more ≡ true) ⊎ (d ≡ c)
    → (x.0 ≡ true) ⊎ ((x.0 ≡ (dirty || more)) × (x.1 ≡ d))
    → (x.0 ≡ true) ⊎ ((x.0 ≡ dirty) × (x.1 ≡ c))
joined dirty more c d x moved (inl done) = inl done
joined dirty true c d x moved (inr (flag, same)) = inl (flag ∙ or_true dirty)
joined dirty false c d x (inl never) (inr (flag, same)) = absurd cc
joined dirty false c d x (inr kept) (inr (flag, same)) = inr (flag ∙ or_false dirty, same ∙ kept)

-- From full arrays of records that their validators accept, draining any requests returns, reads
-- no array out of range and leaves such arrays, and if it does not make the state dirty then
-- nothing has changed.
pub drain-Progress :
    (dirty : Bool) (c : Config) (reqs : List EepromReq)
    → IsAccepted c.cache
    → (x : Bool × Config) × (drain dirty c reqs ≡ some x)
      × IsAccepted x.1.cache
      × ((x.0 ≡ true) ⊎ ((x.0 ≡ dirty) × (x.1 ≡ c)))
unfolding drain
drain-Progress dirty c [] h = ((dirty, c), refl, h, inr (refl, refl))
drain-Progress dirty c (req ∷ reqs) h =
    let ((more, d), e, (accepted, moved)) = process-Progress c req h in
    let (x, drains, all, end) = drain-Progress (dirty || more) d reqs accepted in
    (x, rw (e, drain) drains, all, joined dirty more c d x moved end)

-- From full arrays of records that their validators accept, a round of eeprom_task over any
-- requests, with any types, items, parameters and values, leaves a state d with such arrays, and
-- either config_save was called once, on d, or the round changed nothing at all.
pub round-Progress :
    (w : World) (reqs : List EepromReq)
    → IsAccepted w.config.cache
    → (d : Config) × IsAccepted d.cache
      × ((eeprom_round w reqs ≡ after_save (config_save (record w { config = d })))
          ⊎ (eeprom_round w reqs ≡ some w))
unfolding eeprom_round
round-Progress w reqs h =
    let (x, drains, accepted, end) = drain-Progress false w.config reqs h in
    (
      x.1,
      accepted,
      elim end [
        | inl dirty ↦
            inl (
              ap (save_if_dirty w) drains
              ∙ ap (λ (b : Bool). save_if_dirty w (some (b, x.1))) dirty)
        | inr (clean, same) ↦ inr (
            ap (save_if_dirty w) drains
            ∙ ap (λ (b : Bool). save_if_dirty w (some (b, x.1))) clean
            ∙ ap (λ (c : Config). some (record w { config = c })) same)
      ],
    )
