-- ===== src/Spinlock/Tests.antt =====
-- A thread that takes the mutex, and the theorem at it.
use prototype_bundle.Spinlock.Shared
use prototype_bundle.Spinlock.Shared.{SharedMutex}
use prototype_bundle.Spinlock.Sharing.{shared_exclusion}
use prototype_bundle.Prelude.{ℕ, ◌≡◌, ◌≢◌, refl, true, false, arith}
use prototype_bundle.Spinlock.{
  inside, spinning, Mutex, calls_lock, exchange, enters_lock, exchanges, Steps, stop, later,
  unlocked,
}
use prototype_bundle.Spinlock.Exclusion.{mutual_exclusion}

abbrev taken : Mutex
taken = exchange (calls_lock unlocked 4) 4 spinning

taken_by_4 : (taken.flag ≡ true) × (taken.threads 4 ≡ inside)
taken_by_4 = (refl, refl)

takes_it : Steps unlocked taken
takes_it =
    later (calls_lock unlocked 4) taken
      (later unlocked (calls_lock unlocked 4) stop (enters_lock 4 refl)) (exchanges 4 refl)

mutual_exclusion_example : taken.threads 5 ≢ inside
mutual_exclusion_example = mutual_exclusion taken 4 5 takes_it refl (ground arith)

-- One thread has the shared mutex alone.
abbrev shared_taken : SharedMutex
shared_taken = Shared.try_lock Shared.not_locked 0 false

shared_exclusion_example :
    (◌≢◌ {A = ℕ} 0 1 → shared_taken.threads 1 ≢ Shared.inside)
    × (shared_taken.threads 1 ≢ Shared.sharing)
shared_exclusion_example =
    shared_exclusion shared_taken 0 1
      (Shared.shared_later Shared.not_locked shared_taken Shared.shared_stop
        (Shared.tries_lock 0 false refl))
      refl
