-- ===== src/Spinlock/Sharing.antt =====
-- The runs of threads on a `shared_spin_mutex`, without `lock` and with it.
use prototype_bundle.Prelude.{
  ℕ, zero, suc, Bool, true, false, not, ◌&&◌, ◌≡◌, ◌≢◌, [], refl, sym, ◌∙◌, ap, arith, inl, inr,
  Bool-cases, if◌then◌else◌,
}
use prototype_bundle.Spinlock.Shared.{
  Flag, exclusive, shared, outside, locking, inside, shared_locking, shared_loaded, shared_spinning,
  sharing, shared_unlocking, shared_unloaded, SharedMutex, goes, is_exclusive, is_shared, lock_swap,
  try_lock, after_load, after_unload, SharedStep, enters_lock, swaps_lock, spins_lock, tries_lock,
  unlocks, enters_shared, loads_shared, swaps_shared, spins_shared, leaves_shared, unloads_shared,
  unswaps_shared, SharedSteps, shared_stop, shared_later, not_locked,
}
use prototype_bundle.Spinlock.Readers.{
  is_sharing, in_lock, in_alone, sharers, IsOrderly, clash, no_sharer, keeps-IsOrderly,
  takes-IsOrderly, frees-IsOrderly, joins-IsOrderly, parts-IsOrderly,
}

and-left : (a b : Bool) → (a && b) ≡ true → a ≡ true
and-left true b h = refl
and-left false b h = h

swap-IsOrderly :
    (s a b : SharedMutex) (test fails : Bool)
    → (test ≡ true → IsOrderly a)
    → IsOrderly b
    → IsOrderly (if test && not fails then a else b)
swap-IsOrderly s a b test fails then_a else_b = elim (Bool-cases (test && not fails)) [
  | inl e ↦ rw e (then_a (and-left test (not fails) e))
  | inr e ↦ rw e else_b
]

not_in_lock : (s : SharedMutex) (t : ℕ) → IsOrderly s → in_lock (s.threads t) ≢ true
not_in_lock s t x e = clash (sym (x.no_lock t) ∙ e)

-- Each step but those of `lock` keeps the order.
IsOrderly-step : (s s' : SharedMutex) → SharedStep false s s' → IsOrderly s → IsOrderly s'
IsOrderly-step s s' (enters_lock t locks at) x = absurd (clash locks)
IsOrderly-step s s' (swaps_lock t fails at) x = absurd (not_in_lock s t x (ap in_lock at))
IsOrderly-step s s' (spins_lock t at) x = absurd (not_in_lock s t x (ap in_lock at))
IsOrderly-step s s' (tries_lock t fails at) x =
    swap-IsOrderly s _ _ (is_shared 0 s.flag) fails (takes-IsOrderly s t x)
      (keeps-IsOrderly s t outside x refl refl (λ e. absurd (clash e)))
IsOrderly-step s s' (unlocks t fails at) x =
    swap-IsOrderly s _ _ (is_exclusive s.flag) fails (frees-IsOrderly s t x at)
      (keeps-IsOrderly s t outside x refl refl (λ e. absurd (clash e)))
IsOrderly-step s s' (enters_shared t at) x =
    keeps-IsOrderly s t shared_locking x refl refl (λ e. absurd (clash e))
IsOrderly-step s s' (loads_shared t at) x = go s.flag
  where
    go : (f : Flag) → IsOrderly (goes s s.flag t (after_load f))
    go exclusive = keeps-IsOrderly s t shared_spinning x refl refl (λ e. absurd (clash e))
    go (shared n) = keeps-IsOrderly s t (shared_loaded n) x refl refl (λ e. absurd (clash e))
IsOrderly-step s s' (swaps_shared t expected fails at) x =
    swap-IsOrderly s _ _ (is_shared expected s.flag) fails (joins-IsOrderly s t expected x)
      (keeps-IsOrderly s t shared_spinning x refl refl (λ e. absurd (clash e)))
IsOrderly-step s s' (spins_shared t at) x = go (is_exclusive s.flag)
  where
    go : (b : Bool) → IsOrderly (goes s s.flag t (if b then shared_spinning else shared_locking))
    go true = keeps-IsOrderly s t shared_spinning x refl refl (λ e. absurd (clash e))
    go false = keeps-IsOrderly s t shared_locking x refl refl (λ e. absurd (clash e))
IsOrderly-step s s' (leaves_shared t at) x =
    keeps-IsOrderly s t shared_unlocking x refl refl (λ e. ap is_sharing at)
IsOrderly-step s s' (unloads_shared t at) x = go s.flag
  where
    go : (f : Flag) → IsOrderly (goes s s.flag t (after_unload f))
    go exclusive = keeps-IsOrderly s t outside x refl refl (λ e. absurd (clash e))
    go (shared zero) = keeps-IsOrderly s t outside x refl refl (λ e. absurd (clash e))
    go (shared (suc n)) =
        keeps-IsOrderly s t (shared_unloaded n) x refl refl (λ e. ap is_sharing at)
IsOrderly-step s s' (unswaps_shared t less fails at) x =
    swap-IsOrderly s _ _ (is_shared (suc less) s.flag) fails
      (parts-IsOrderly s t less x (ap is_sharing at))
      (keeps-IsOrderly s t shared_unlocking x refl refl (λ e. ap is_sharing at))

IsOrderly-reachable : (s s' : SharedMutex) → SharedSteps false s s' → IsOrderly s → IsOrderly s'
IsOrderly-reachable s s' shared_stop x = x
IsOrderly-reachable s s' (shared_later m e before step) x =
    IsOrderly-step m s' step (IsOrderly-reachable s m before x)

not_locked-IsOrderly : IsOrderly not_locked
not_locked-IsOrderly = record {
  no_lock = λ t. refl;
  raised = λ t e. absurd (clash e);
  alone = λ t u e f. absurd (clash e);
  readers = [];
  counted = refl;
  listed = λ t e. absurd (clash e);
}

-- After any steps of threads that do not call `lock`, a thread that `try_lock` has let in is alone: no
-- other is let in, and none shares the mutex.
pub shared_exclusion :
    (s : SharedMutex) (t u : ℕ)
    → SharedSteps false not_locked s
    → s.threads t ≡ inside
    → (t ≢ u → s.threads u ≢ inside) × (s.threads u ≢ sharing)
shared_exclusion s t u steps at =
    let x = IsOrderly-reachable not_locked s steps not_locked-IsOrderly in
    (
      (λ other e. other (x.alone t u (ap in_alone at) (ap in_alone e))),
      λ e. no_sharer s u x (raised_none s.flag (x.raised t (ap in_alone at))) (ap is_sharing e),
    )
  where
    raised_none : (f : Flag) → is_exclusive f ≡ true → sharers f ≡ 0
    raised_none exclusive e = refl
    raised_none (shared n) e = absurd (clash e)

-- Where threads call `lock` too, it is not so that at most one of them is let in alone.
pub lock_admits : ¬ (
    (s : SharedMutex) (t u : ℕ)
    → SharedSteps true not_locked s
    → s.threads t ≡ inside
    → s.threads u ≡ inside
    → t ≡ u)
lock_admits unique =
    let s1 = try_lock not_locked 0 false in
    let s2 = goes s1 s1.flag 1 locking in
    let s3 = lock_swap s2 1 false in
    let steps : SharedSteps true not_locked s3 =
      shared_later s2 s3
        (shared_later s1 s2 (shared_later not_locked s1 shared_stop (tries_lock 0 false refl))
          (enters_lock 1 refl refl))
        (swaps_lock 1 false refl) in
    let e = unique s3 0 1 steps refl refl in omega arith
