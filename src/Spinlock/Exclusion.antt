-- ===== src/Spinlock/Exclusion.antt =====
-- The runs of threads on a `spin_mutex`.
use prototype_bundle.Prelude.{
  ℕ, Bool, true, false, ◌==◌, ◌≡◌, ◌≢◌, if◌then◌else◌, refl, sym, ◌∙◌, ap, arith, ℕ_discrete,
  Bool-cases, inl, inr,
}
use prototype_bundle.Spinlock.{
  Thread, outside, locking, spinning, trying, inside, Mutex, moved, exchange, unlock, Step,
  enters_lock, exchanges, waits, enters_try_lock, tries, unlocks, Steps, stop, later, unlocked,
}

-- A thread with the mutex is the only one, and the flag is up then.
pub record IsExclusive (s : Mutex) : Type 0 where
  pub raised : (t : ℕ) → s.threads t ≡ inside → s.flag ≡ true
  pub alone : (t u : ℕ) → s.threads t ≡ inside → s.threads u ≡ inside → t ≡ u

moved-same :
    (s : Mutex) (flag : Bool) (t : ℕ) (thread : Thread) → (moved s flag t thread).threads t ≡ thread
moved-same s flag t thread = let e : (t == t) ≡ true = ground arith in rw e refl

moved-other :
    (s : Mutex) (flag : Bool) (t u : ℕ) (thread : Thread)
    → u ≢ t
    → (moved s flag t thread).threads u ≡ s.threads u
moved-other s flag t u thread other = let e : (u == t) ≡ false = ground arith in rw e refl

-- A thread that moves, but not into the mutex, keeps the exclusion, where the flag is kept or raised.
moved-outside :
    (s : Mutex) (flag : Bool) (t : ℕ) (thread : Thread)
    → IsExclusive s
    → thread ≢ inside
    → (s.flag ≡ true → flag ≡ true)
    → IsExclusive (moved s flag t thread)
moved-outside s flag t thread x not_in up = record {
  raised = λ u e. up (x.raised u (before u e));
  alone = λ u v e f. x.alone u v (before u e) (before v f);
}
  where
    before : (u : ℕ) → (moved s flag t thread).threads u ≡ inside → s.threads u ≡ inside
    before u e = elim (ℕ_discrete u t) [
      | yes same ↦
          absurd (
            not_in (sym (ap (moved s flag t thread).threads same ∙ moved-same s flag t thread) ∙ e))
      | no other ↦ sym (moved-other s flag t u thread other) ∙ e
    ]

-- With the flag down, no thread has the mutex, and the one that moves into it is alone.
moved-inside :
    (s : Mutex) (t : ℕ) → IsExclusive s → s.flag ≡ false → IsExclusive (moved s true t inside)
moved-inside s t x down = record {
  raised = λ u e. refl;
  alone = λ u v e f. mover u e ∙ sym (mover v f);
}
  where
    mover : (u : ℕ) → (moved s true t inside).threads u ≡ inside → u ≡ t
    mover u e = elim (ℕ_discrete u t) [
      | yes same ↦ same
      | no other ↦
          absurd (ground (arith, down, x.raised u (sym (moved-other s true t u inside other) ∙ e)))
    ]

-- The thread that unlocks was the only one with the mutex.
moved-out : (s : Mutex) (t : ℕ) → IsExclusive s → s.threads t ≡ inside → IsExclusive (unlock s t)
moved-out s t x at = record {
  raised = λ u e. absurd (none_inside u e);
  alone = λ u v e f. absurd (none_inside u e);
}
  where
    none_inside : (u : ℕ) → (unlock s t).threads u ≢ inside
    none_inside u e = elim (ℕ_discrete u t) [
      | yes same ↦ clash (sym (ap (unlock s t).threads same ∙ moved-same s false t outside) ∙ e)
      | no other ↦ other (x.alone u t (sym (moved-other s false t u outside other) ∙ e) at)
    ]
      where
        clash : outside ≢ inside
        clash h = cc

exchange-IsExclusive :
    (s : Mutex) (t : ℕ) (otherwise : Thread)
    → IsExclusive s
    → otherwise ≢ inside
    → IsExclusive (exchange s t otherwise)
exchange-IsExclusive s t otherwise x not_in = elim (Bool-cases s.flag) [
  | inl up ↦ rw up (moved-outside s true t otherwise x not_in (λ e. refl))
  | inr down ↦ rw down (moved-inside s t x down)
]

choice-IsExclusive :
    (s : Mutex) (t : ℕ) (a b : Thread)
    → IsExclusive s
    → a ≢ inside
    → b ≢ inside
    → IsExclusive (moved s s.flag t (if s.flag then a else b))
choice-IsExclusive s t a b x not_a not_b = elim (Bool-cases s.flag) [
  | inl up ↦ rw up (moved-outside s true t a x not_a (λ e. refl))
  | inr down ↦ rw down (moved-outside s false t b x not_b (λ e. sym down ∙ e))
]

-- Each step of a thread keeps the exclusion.
IsExclusive-step : (s s' : Mutex) → Step s s' → IsExclusive s → IsExclusive s'
IsExclusive-step s s' (enters_lock t at) x = moved-outside s s.flag t locking x (λ e. cc) (λ e. e)
IsExclusive-step s s' (exchanges t at) x = exchange-IsExclusive s t spinning x (λ e. cc)
IsExclusive-step s s' (waits t at) x = choice-IsExclusive s t spinning locking x (λ e. cc) (λ e. cc)
IsExclusive-step s s' (enters_try_lock t at) x =
    choice-IsExclusive s t outside trying x (λ e. cc) (λ e. cc)
IsExclusive-step s s' (tries t at) x = exchange-IsExclusive s t outside x (λ e. cc)
IsExclusive-step s s' (unlocks t at) x = moved-out s t x at

IsExclusive-reachable : (s s' : Mutex) → Steps s s' → IsExclusive s → IsExclusive s'
IsExclusive-reachable s s' stop x = x
IsExclusive-reachable s s' (later m e before step) x =
    IsExclusive-step m s' step (IsExclusive-reachable s m before x)

-- After any steps of the threads from a mutex that is not locked, while a thread has it, no other
-- thread does.
pub mutual_exclusion :
    (s : Mutex) (t u : ℕ) → Steps unlocked s → s.threads t ≡ inside → t ≢ u → s.threads u ≢ inside
mutual_exclusion s t u steps e different f = different (
    (IsExclusive-reachable unlocked s steps
        (record { raised = λ v h. absurd (never h); alone = λ v w h g. absurd (never h) })).alone
      t u e f)
  where
    never : outside ≢ inside
    never h = cc
