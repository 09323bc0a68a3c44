-- ===== src/Tests/Locks.antt =====
-- Two threads at the lock.
use config_wp.Base.{◌≡◌, refl, inl, false}
use config_wp.Lock.{
  Lock, take_mutex, write_owner, write_has_owner, clear_has_owner, give_mutex, takes, owns, marks,
  clears, gives, Runs, still, then_step, RunsWithout, still_without, then_other, is_held, idle,
}
use config_wp.Lock.Held.{is_held_exact}

abbrev one_inside : Lock
one_inside = write_has_owner 1 (write_owner 1 (take_mutex 1 idle))

one_entered : Runs idle one_inside
one_entered =
    then_step 1 (then_step 1 (then_step 1 still (takes refl refl refl)) (owns refl)) (marks refl)

-- While thread 2 asks, thread 1 gives the lock, and thread 3 takes it.
abbrev three_inside : Lock
three_inside =
    write_has_owner 3 (write_owner 3 (take_mutex 3 (give_mutex 1 (clear_has_owner 1 one_inside))))

others_ran : RunsWithout 2 one_inside three_inside
others_ran =
    then_other 3 (λ e. absurd cc)
      (then_other 3 (λ e. absurd cc)
        (then_other 3 (λ e. absurd cc)
          (then_other 1 (λ e. absurd cc) (then_other 1 (λ e. absurd cc) still_without (clears refl))
            (gives refl))
          (takes refl refl refl))
        (owns refl))
      (marks refl)

is_held_exact_example : is_held 2 one_inside three_inside ≡ false
is_held_exact_example = is_held_exact 2 one_inside three_inside one_entered others_ran (inl refl)
