-- ===== src/Spinlock/Shared.antt =====
-- `shared_spin_mutex` of benchmarks/spinlock_benchmark.cpp (demo_b): threads that lock it, alone or
-- shared, by their accesses to its flag.

use prototype_bundle.Prelude.{ℕ, zero, suc, Bool, true, false, not, ◌&&◌, ◌==◌, ◌≡◌, if◌then◌else◌}
use prototype_bundle.Prelude.Places.{update_at}

-- `_flag`: -1 while a thread has the mutex alone, else the number of threads that share it
pub data Flag : Type 0 where
  exclusive : Flag
  shared : ℕ → Flag

-- Where a thread is: outside; in `lock`, before its compare and swap or in its inner loop; with the
-- mutex alone; in `shared_lock`, before its load, before its compare and swap with the value that it
-- has loaded, or in its inner loop; with the mutex shared; in `shared_unlock`, before its load, or
-- before its compare and swap with the value that it has loaded
pub data SharedThread : Type 0 where
  outside : SharedThread
  locking : SharedThread
  spinning : SharedThread
  inside : SharedThread
  shared_locking : SharedThread
  shared_loaded : ℕ → SharedThread
  shared_spinning : SharedThread
  sharing : SharedThread
  shared_unlocking : SharedThread
  shared_unloaded : ℕ → SharedThread

pub record SharedMutex : Type 0 where
  pub flag : Flag
  pub threads : ℕ → SharedThread

abbrev pub goes : SharedMutex → Flag → ℕ → SharedThread → SharedMutex
goes s flag t thread = record { flag = flag; threads = update_at s.threads t thread }

-- Whether the flag is the expected value
abbrev pub is_exclusive : Flag → Bool
is_exclusive exclusive = true
is_exclusive (shared n) = false

abbrev pub is_shared : ℕ → Flag → Bool
is_shared expected exclusive = false
is_shared expected (shared n) = n == expected

-- `compare_exchange_weak` of `lock`, after which the code returns where it has failed
abbrev pub lock_swap : SharedMutex → ℕ → Bool → SharedMutex
lock_swap s t fails =
    if is_shared 0 s.flag && not fails then goes s exclusive t spinning else goes s s.flag t inside

-- The inner loop of `lock`
abbrev pub lock_spins : SharedMutex → ℕ → SharedMutex
lock_spins s t = goes s s.flag t (if is_shared 0 s.flag then locking else spinning)

abbrev pub try_lock : SharedMutex → ℕ → Bool → SharedMutex
try_lock s t fails =
    if is_shared 0 s.flag && not fails then goes s exclusive t inside else goes s s.flag t outside

abbrev pub unlock : SharedMutex → ℕ → Bool → SharedMutex
unlock s t fails =
    if is_exclusive s.flag && not fails
    then goes s (shared 0) t outside
    else goes s s.flag t outside

-- The load of `shared_lock`, with the test of the value
abbrev pub after_load : Flag → SharedThread
after_load exclusive = shared_spinning
after_load (shared n) = shared_loaded n

abbrev pub shared_load : SharedMutex → ℕ → SharedMutex
shared_load s t = goes s s.flag t (after_load s.flag)

abbrev pub shared_swap : SharedMutex → ℕ → ℕ → Bool → SharedMutex
shared_swap s t expected fails =
    if is_shared expected s.flag && not fails
    then goes s (shared (suc expected)) t sharing
    else goes s s.flag t shared_spinning

abbrev pub shared_spins : SharedMutex → ℕ → SharedMutex
shared_spins s t = goes s s.flag t (if is_exclusive s.flag then shared_spinning else shared_locking)

-- The load of `shared_unlock`, which returns where the value is not positive
abbrev pub after_unload : Flag → SharedThread
after_unload exclusive = outside
after_unload (shared zero) = outside
after_unload (shared (suc n)) = shared_unloaded n

abbrev pub shared_unload : SharedMutex → ℕ → SharedMutex
shared_unload s t = goes s s.flag t (after_unload s.flag)

-- Its compare and swap of one more than `less` for `less`
abbrev pub shared_unswap : SharedMutex → ℕ → ℕ → Bool → SharedMutex
shared_unswap s t less fails =
    if is_shared (suc less) s.flag && not fails
    then goes s (shared less) t outside
    else goes s s.flag t shared_unlocking

-- A step of one thread; `lock` is called only with `locks`, and each unlock by a thread that has the
-- mutex so. A compare and swap may fail for no reason.
pub data SharedStep (locks : Bool) (s : SharedMutex) : SharedMutex → Type 0 where
  enters_lock :
      (t : ℕ) → locks ≡ true → s.threads t ≡ outside → SharedStep locks s (goes s s.flag t locking)
  swaps_lock :
      (t : ℕ) (fails : Bool) → s.threads t ≡ locking → SharedStep locks s (lock_swap s t fails)
  spins_lock : (t : ℕ) → s.threads t ≡ spinning → SharedStep locks s (lock_spins s t)
  tries_lock :
      (t : ℕ) (fails : Bool) → s.threads t ≡ outside → SharedStep locks s (try_lock s t fails)
  unlocks : (t : ℕ) (fails : Bool) → s.threads t ≡ inside → SharedStep locks s (unlock s t fails)
  enters_shared :
      (t : ℕ) → s.threads t ≡ outside → SharedStep locks s (goes s s.flag t shared_locking)
  loads_shared : (t : ℕ) → s.threads t ≡ shared_locking → SharedStep locks s (shared_load s t)
  swaps_shared :
      (t expected : ℕ) (fails : Bool)
      → s.threads t ≡ shared_loaded expected
      → SharedStep locks s (shared_swap s t expected fails)
  spins_shared : (t : ℕ) → s.threads t ≡ shared_spinning → SharedStep locks s (shared_spins s t)
  leaves_shared :
      (t : ℕ) → s.threads t ≡ sharing → SharedStep locks s (goes s s.flag t shared_unlocking)
  unloads_shared : (t : ℕ) → s.threads t ≡ shared_unlocking → SharedStep locks s (shared_unload s t)
  unswaps_shared :
      (t less : ℕ) (fails : Bool)
      → s.threads t ≡ shared_unloaded less
      → SharedStep locks s (shared_unswap s t less fails)

pub data SharedSteps (locks : Bool) (s : SharedMutex) : SharedMutex → Type 0 where
  shared_stop : SharedSteps locks s s
  shared_later :
      (m e : SharedMutex) → SharedSteps locks s m → SharedStep locks m e → SharedSteps locks s e

-- The mutex when it is made
abbrev pub not_locked : SharedMutex
not_locked = record { flag = shared 0; threads = λ t. outside }
