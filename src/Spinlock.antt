-- ===== src/Spinlock.antt =====
-- `spin_mutex` of benchmarks/spinlock_benchmark.cpp (demo_c) and of benchmarks/binalloc/utils.h, which
-- are the same: threads that lock and unlock one mutex, by their accesses to its flag. The child
-- Shared is the `shared_spin_mutex` of demo_b.
pub mod Exclusion
pub mod Shared
pub mod Readers
pub mod Sharing
mod Tests
use prototype_bundle.Prelude.{ℕ, Bool, true, false, ◌==◌, ◌≡◌, if◌then◌else◌}

-- Where a thread is: outside; in `lock`, before the exchange or in the inner loop; in `try_lock`,
-- between its load and its exchange; or with the mutex
pub data Thread : Type 0 where
  outside : Thread
  locking : Thread
  spinning : Thread
  trying : Thread
  inside : Thread

pub record Mutex : Type 0 where
  pub flag : Bool
  pub threads : ℕ → Thread

abbrev pub moved : Mutex → Bool → ℕ → Thread → Mutex
moved s flag t thread = record {
  flag = flag;
  threads = λ u. if u == t then thread else s.threads u;
}

-- `lock` is called, or the inner loop has seen the flag down.
abbrev pub calls_lock : Mutex → ℕ → Mutex
calls_lock s t = moved s s.flag t locking

-- `_lock.exchange(true)`: with the mutex when the flag was down, and else at `otherwise`
abbrev pub exchange : Mutex → ℕ → Thread → Mutex
exchange s t otherwise = moved s true t (if s.flag then otherwise else inside)

-- `_lock.load()` of the inner loop of `lock`
abbrev pub spins : Mutex → ℕ → Mutex
spins s t = moved s s.flag t (if s.flag then spinning else locking)

-- `_lock.load()` of `try_lock`, which gives up when the flag is up
abbrev pub loads : Mutex → ℕ → Mutex
loads s t = moved s s.flag t (if s.flag then outside else trying)

-- `unlock`
abbrev pub unlock : Mutex → ℕ → Mutex
unlock s t = moved s false t outside

-- A step of one thread; `unlock` is called by the thread that has the mutex.
pub data Step (s : Mutex) : Mutex → Type 0 where
  enters_lock : (t : ℕ) → s.threads t ≡ outside → Step s (calls_lock s t)
  exchanges : (t : ℕ) → s.threads t ≡ locking → Step s (exchange s t spinning)
  waits : (t : ℕ) → s.threads t ≡ spinning → Step s (spins s t)
  enters_try_lock : (t : ℕ) → s.threads t ≡ outside → Step s (loads s t)
  tries : (t : ℕ) → s.threads t ≡ trying → Step s (exchange s t outside)
  unlocks : (t : ℕ) → s.threads t ≡ inside → Step s (unlock s t)

pub data Steps (s : Mutex) : Mutex → Type 0 where
  stop : Steps s s
  later : (m e : Mutex) → Steps s m → Step m e → Steps s e

-- The mutex when it is made, with no thread in a call
abbrev pub unlocked : Mutex
unlocked = record { flag = false; threads = λ t. outside }
