-- ===== src/Spinlock/Readers.antt =====
-- Who has the `shared_spin_mutex`: a thread alone, or the threads that share it; and what each access
-- does to that, but those of `lock`.
use prototype_bundle.Prelude.{
  ℕ, suc, ◌<◌, ℕ_discrete, Bool, true, false, ◌≡◌, ◌≢◌, List, [], ◌∷◌, length, refl, sym, ◌∙◌, ap,
  subst, arith, ◌⊎◌, inl, inr,
}
use prototype_bundle.Prelude.Places.{
  update_at-all, update_at-same, update_at-other, Has, Has-here, Has-there, Has-without, without,
  length-without,
}
use prototype_bundle.Spinlock.Shared.{
  Flag, exclusive, shared, SharedThread, outside, locking, spinning, inside, sharing,
  shared_unlocking, shared_unloaded, SharedMutex, goes, is_exclusive, is_shared,
}

-- A thread that counts as sharing
abbrev pub is_sharing : SharedThread → Bool
is_sharing sharing = true
is_sharing shared_unlocking = true
is_sharing (shared_unloaded n) = true
is_sharing thread = false

-- A thread in `lock`
abbrev pub in_lock : SharedThread → Bool
in_lock locking = true
in_lock spinning = true
in_lock thread = false

abbrev pub in_alone : SharedThread → Bool
in_alone inside = true
in_alone thread = false

abbrev pub sharers : Flag → ℕ
sharers exclusive = 0
sharers (shared n) = n

-- No thread is in `lock`, a thread inside has raised the flag and is alone there, and those that share
-- the mutex are among as many as the flag tells.
pub record IsOrderly (s : SharedMutex) : Type 0 where
  pub no_lock : (t : ℕ) → in_lock (s.threads t) ≡ false
  pub raised : (t : ℕ) → in_alone (s.threads t) ≡ true → is_exclusive s.flag ≡ true
  pub alone : (t u : ℕ) → in_alone (s.threads t) ≡ true → in_alone (s.threads u) ≡ true → t ≡ u
  pub readers : List ℕ
  pub counted : length readers ≡ sharers s.flag
  pub listed : (t : ℕ) → is_sharing (s.threads t) ≡ true → Has t readers

pub clash : false ≢ true
clash e = cc

-- What a thread that goes on does not become, it was before, or is another.
was :
    (P : SharedThread → Bool) (s : SharedMutex) (flag : Flag) (t u : ℕ) (thread : SharedThread)
    → P ((goes s flag t thread).threads u) ≡ true
    → ((u ≡ t) × (P thread ≡ true)) ⊎ ((u ≢ t) × (P (s.threads u) ≡ true))
was P s flag t u thread h = elim (ℕ_discrete u t) [
  | yes same ↦ inl (
    same,
    sym (ap P (ap (goes s flag t thread).threads same ∙ update_at-same s.threads t thread)) ∙ h,
  )
  | no other ↦ inr (other, sym (ap P (update_at-other s.threads t u thread other)) ∙ h)
]

none_in_lock :
    (s : SharedMutex) (flag : Flag) (t : ℕ) (thread : SharedThread)
    → IsOrderly s
    → in_lock thread ≡ false
    → (u : ℕ) → in_lock ((goes s flag t thread).threads u) ≡ false
none_in_lock s flag t thread x out u =
    update_at-all (λ u thread. in_lock thread ≡ false) s.threads t thread out
      (λ u other. x.no_lock u) u

-- A thread goes on and keeps the flag, and does not come to have the mutex.
pub keeps-IsOrderly :
    (s : SharedMutex) (t : ℕ) (thread : SharedThread)
    → IsOrderly s
    → in_lock thread ≡ false
    → in_alone thread ≡ false
    → (is_sharing thread ≡ true → is_sharing (s.threads t) ≡ true)
    → IsOrderly (goes s s.flag t thread)
keeps-IsOrderly s t thread x out apart sharer = record {
  no_lock = none_in_lock s s.flag t thread x out;
  raised = λ u e. x.raised u (before u e);
  alone = λ u v e f. x.alone u v (before u e) (before v f);
  readers = x.readers;
  counted = x.counted;
  listed = λ u e. elim (was is_sharing s s.flag t u thread e) [
    | inl (same, new) ↦
        x.listed u (subst (λ v. is_sharing (s.threads v) ≡ true) (sym same) (sharer new))
    | inr (other, old) ↦ x.listed u old
  ];
}
  where
    before :
        (u : ℕ)
        → in_alone ((goes s s.flag t thread).threads u) ≡ true
        → in_alone (s.threads u) ≡ true
    before u e = elim (was in_alone s s.flag t u thread e) [
      | inl (same, new) ↦ absurd (clash (sym apart ∙ new))
      | inr (other, old) ↦ old
    ]

Has-length : (t : ℕ) (l : List ℕ) → Has t l → 0 < length l
unfolding Has
Has-length t [] h = absurd h
Has-length t (y ∷ l) h = omega arith

pub no_sharer :
    (s : SharedMutex) (t : ℕ) → IsOrderly s → sharers s.flag ≡ 0 → is_sharing (s.threads t) ≢ true
no_sharer s t x none_here e = omega (arith, Has-length t x.readers (x.listed t e), x.counted)

-- A thread takes the mutex alone where none has it.
pub takes-IsOrderly :
    (s : SharedMutex) (t : ℕ)
    → IsOrderly s
    → is_shared 0 s.flag ≡ true
    → IsOrderly (goes s exclusive t inside)
takes-IsOrderly s t x free = record {
  no_lock = none_in_lock s exclusive t inside x refl;
  raised = λ u e. refl;
  alone = λ u v e f. taker u e ∙ sym (taker v f);
  readers = [];
  counted = refl;
  listed = λ u e. elim (was is_sharing s exclusive t u inside e) [
    | inl (same, new) ↦ absurd (clash new)
    | inr (other, old) ↦ absurd (no_sharer s u x (none_shares s.flag free) old)
  ];
}
  where
    none_shares : (f : Flag) → is_shared 0 f ≡ true → sharers f ≡ 0
    none_shares exclusive e = refl
    none_shares (shared n) e = ground arith

    not_raised : (f : Flag) → is_shared 0 f ≡ true → is_exclusive f ≢ true
    not_raised exclusive e r = clash e
    not_raised (shared n) e r = clash r

    taker : (u : ℕ) → in_alone ((goes s exclusive t inside).threads u) ≡ true → u ≡ t
    taker u e = elim (was in_alone s exclusive t u inside e) [
      | inl (same, new) ↦ same
      | inr (other, old) ↦ absurd (not_raised s.flag free (x.raised u old))
    ]

-- The thread that has it alone leaves it.
pub frees-IsOrderly :
    (s : SharedMutex) (t : ℕ)
    → IsOrderly s
    → s.threads t ≡ inside
    → is_exclusive s.flag ≡ true
    → IsOrderly (goes s (shared 0) t outside)
frees-IsOrderly s t x at up = record {
  no_lock = none_in_lock s (shared 0) t outside x refl;
  raised = λ u e. absurd (none_inside u e);
  alone = λ u v e f. absurd (none_inside u e);
  readers = [];
  counted = refl;
  listed = λ u e. elim (was is_sharing s (shared 0) t u outside e) [
    | inl (same, new) ↦ absurd (clash new)
    | inr (other, old) ↦ absurd (no_sharer s u x (none_shares s.flag up) old)
  ];
}
  where
    none_shares : (f : Flag) → is_exclusive f ≡ true → sharers f ≡ 0
    none_shares exclusive e = refl
    none_shares (shared n) e = absurd (clash e)

    none_inside : (u : ℕ) → in_alone ((goes s (shared 0) t outside).threads u) ≢ true
    none_inside u e = elim (was in_alone s (shared 0) t u outside e) [
      | inl (same, new) ↦ clash new
      | inr (other, old) ↦ other (x.alone u t old (ap in_alone at))
    ]

not_inside :
    (s : SharedMutex) (expected u : ℕ)
    → IsOrderly s
    → is_shared expected s.flag ≡ true
    → in_alone (s.threads u) ≢ true
not_inside s expected u x found e = apart s.flag found (x.raised u e)
  where
    apart : (f : Flag) → is_shared expected f ≡ true → is_exclusive f ≢ true
    apart exclusive h r = clash h
    apart (shared n) h r = clash r

count_of : (f : Flag) (expected : ℕ) → is_shared expected f ≡ true → sharers f ≡ expected
count_of exclusive expected h = absurd (clash h)
count_of (shared n) expected h = ground arith

-- A thread joins those that share it,
pub joins-IsOrderly :
    (s : SharedMutex) (t expected : ℕ)
    → IsOrderly s
    → is_shared expected s.flag ≡ true
    → IsOrderly (goes s (shared (suc expected)) t sharing)
joins-IsOrderly s t expected x found = record {
  no_lock = none_in_lock s (shared (suc expected)) t sharing x refl;
  raised = λ u e. absurd (none_inside u e);
  alone = λ u v e f. absurd (none_inside u e);
  readers = t ∷ x.readers;
  counted = ap suc (x.counted ∙ count_of s.flag expected found);
  listed = λ u e. elim (was is_sharing s (shared (suc expected)) t u sharing e) [
    | inl (same, new) ↦ subst (λ v. Has v (t ∷ x.readers)) (sym same) (Has-here t x.readers)
    | inr (other, old) ↦ Has-there u t x.readers (x.listed u old)
  ];
}
  where
    none_inside : (u : ℕ) → in_alone ((goes s (shared (suc expected)) t sharing).threads u) ≢ true
    none_inside u e = elim (was in_alone s (shared (suc expected)) t u sharing e) [
      | inl (same, new) ↦ clash new
      | inr (other, old) ↦ not_inside s expected u x found old
    ]

-- and one of them leaves.
pub parts-IsOrderly :
    (s : SharedMutex) (t less : ℕ)
    → IsOrderly s
    → is_sharing (s.threads t) ≡ true
    → is_shared (suc less) s.flag ≡ true
    → IsOrderly (goes s (shared less) t outside)
parts-IsOrderly s t less x mine found = record {
  no_lock = none_in_lock s (shared less) t outside x refl;
  raised = λ u e. absurd (none_inside u e);
  alone = λ u v e f. absurd (none_inside u e);
  readers = without t x.readers;
  counted = omega (
    arith,
    length-without t x.readers (x.listed t mine),
    x.counted,
    count_of s.flag (suc less) found,
  );
  listed = λ u e. elim (was is_sharing s (shared less) t u outside e) [
    | inl (same, new) ↦ absurd (clash new)
    | inr (other, old) ↦ Has-without u t x.readers other (x.listed u old)
  ];
}
  where
    none_inside : (u : ℕ) → in_alone ((goes s (shared less) t outside).threads u) ≢ true
    none_inside u e = elim (was in_alone s (shared less) t u outside e) [
      | inl (same, new) ↦ clash new
      | inr (other, old) ↦ not_inside s (suc less) u x found old
    ]
