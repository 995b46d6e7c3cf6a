-- ===== src/Lockfree/Collector/Locals.antt =====
-- What holds of a thread between its steps, and that the steps of the others keep it.
use prototype_bundle.Prelude.{
  ℕ, true, false, ◌≡◌, ◌≢◌, ◌==◌, List, [], ◌∷◌, ◌++◌, All, inl, inr, sym, ◌∙◌, subst, arith,
  ℕ_discrete,
}
use prototype_bundle.Binalloc.Stack.{nullptr, NextFields}
use prototype_bundle.Binalloc.Stack.Chain.{IsChain, IsFresh}
use prototype_bundle.Lockfree.Collector.{
  Stage, fresh, listed, unhooked, condemned, deleted, Thread, idle, pushing, guarded, loaded,
  popping, clearing, walking, holding_chain, collecting, trying, found, alone, deleting, leaving,
}
use prototype_bundle.Prelude.Places.{update_at}
use prototype_bundle.Lockfree.Collector.Stages.{
  Moves, IsRetired, IsOwn, Moves-unhooked, Moves-condemned, Moves-IsRetired, Moves-not_fresh,
  Moves-listed, not-IsOwn-retired, not-IsOwn-unhooked, not-IsOwn-condemned, not-IsOwn-listed,
  WritesOwn, IsChain-kept,
}

-- No thread has loaded a node of the list.
abbrev pub IsUnheld : (ℕ → Thread) → List ℕ → Type 0
IsUnheld threads l = (u old : ℕ) → threads u ≡ loaded old → IsFresh old l

abbrev pub AllAt : (ℕ → Stage) → Stage → List ℕ → Type 0
AllAt stages stage l = All (λ a. stages a ≡ stage) l

-- From `first` to `last` stand the nodes that thread `t` has taken off the list.
pub record HasChain (next : NextFields) (stages : ℕ → Stage) (t first last : ℕ) : Type 0 where
  pub before : List ℕ
  pub chain : IsChain next first before last
  pub there : last ≢ nullptr
  pub apart : IsFresh last before
  pub mine : AllAt stages (unhooked t) (before ++ last ∷ [])

pub record IsWalking (next : NextFields) (stages : ℕ → Stage) (t first tail : ℕ) : Type 0 where
  pub before : List ℕ
  pub after : List ℕ
  pub chain : IsChain next first before tail
  pub rest : IsChain next tail (tail ∷ after) nullptr
  pub mine : AllAt stages (unhooked t) before
  pub mine_after : AllAt stages (unhooked t) (tail ∷ after)

-- From `c` stand nodes that have been in the collection.
pub record HasFound (next : NextFields) (stages : ℕ → Stage) (c : ℕ) : Type 0 where
  pub nodes : List ℕ
  pub chain : IsChain next c nodes nullptr
  pub retired : All (λ a. IsRetired (stages a)) nodes

pub record IsAlone (next : NextFields) (stages : ℕ → Stage) (threads : ℕ → Thread) (c : ℕ)
    : Type 0 where
  pub nodes : List ℕ
  pub chain : IsChain next c nodes nullptr
  pub retired : All (λ a. IsRetired (stages a)) nodes
  pub unheld : IsUnheld threads nodes

pub record IsDeleting (next : NextFields) (stages : ℕ → Stage) (threads : ℕ → Thread) (t c : ℕ)
    : Type 0 where
  pub nodes : List ℕ
  pub chain : IsChain next c nodes nullptr
  pub mine : AllAt stages (condemned t) nodes
  pub unheld : IsUnheld threads nodes

pub record IsPushing (stages : ℕ → Stage) (node : ℕ) : Type 0 where
  pub there : node ≢ nullptr
  pub new : stages node ≡ fresh

pub record HasLoaded (stages : ℕ → Stage) (old : ℕ) : Type 0 where
  pub there : old ≢ nullptr
  pub known : stages old ≢ fresh
  pub alive : stages old ≢ deleted

-- The link that a pop has read is the node's for as long as the node is on the list.
pub record IsPopping (next : NextFields) (stages : ℕ → Stage) (old after : ℕ) : Type 0 where
  pub there : old ≢ nullptr
  pub known : stages old ≢ fresh
  pub link : stages old ≡ listed → next old ≡ after

unfoldable pub IsLocal : NextFields → (ℕ → Stage) → (ℕ → Thread) → ℕ → Thread → Type 0
IsLocal next stages threads t idle = Unit {0}
IsLocal next stages threads t (pushing node) = IsPushing stages node
IsLocal next stages threads t guarded = Unit {0}
IsLocal next stages threads t (loaded old) = HasLoaded stages old
IsLocal next stages threads t (popping old after) = IsPopping next stages old after
IsLocal next stages threads t clearing = Unit {0}
IsLocal next stages threads t (walking first tail) = IsWalking next stages t first tail
IsLocal next stages threads t (holding_chain first last) = HasChain next stages t first last
IsLocal next stages threads t (collecting first last) = HasChain next stages t first last
IsLocal next stages threads t trying = Unit {0}
IsLocal next stages threads t (found c) = HasFound next stages c
IsLocal next stages threads t (alone c) = IsAlone next stages threads c
IsLocal next stages threads t (deleting c) = IsDeleting next stages threads t c
IsLocal next stages threads t leaving = Unit {0}

-- What a step of thread `t` must keep for the other threads
pub record Respects (t : ℕ) (next next' : NextFields) (stages stages' : ℕ → Stage)
    (threads : ℕ → Thread) (thread : Thread) : Type 0 where
  pub writes : WritesOwn t stages next next'
  pub moves : (a : ℕ) → Moves t (stages a) (stages' a)
  pub pushes : (u a : ℕ) → u ≢ t → threads u ≡ pushing a → stages' a ≡ stages a
  pub spares : (u a : ℕ) → u ≢ t → threads u ≡ loaded a → stages' a ≢ deleted
  pub loads : (a : ℕ) → thread ≡ loaded a → stages a ≡ listed

pub All-map : {P Q : ℕ → Type 0} (l : List ℕ) → ((a : ℕ) → P a → Q a) → All P l → All Q l
All-map [] f h = tt
All-map (a ∷ l) f h = (f a h.0, All-map l f h.1)

IsUnheld-kept :
    (stages : ℕ → Stage) (threads : ℕ → Thread) (t : ℕ) (thread : Thread) (l : List ℕ)
    → ((a : ℕ) → thread ≡ loaded a → stages a ≡ listed)
    → All (λ a. stages a ≢ listed) l
    → IsUnheld threads l
    → IsUnheld (update_at threads t thread) l
IsUnheld-kept stages threads t thread l loads off unheld u old e = elim (ℕ_discrete u t) [
  | yes same ↦
      let here : (u == t) ≡ true = ground arith in fresh_of l (loads old (rw here at e)) off
  | no other ↦ let away : (u == t) ≡ false = ground arith in unheld u old (rw away at e)
]
  where
    fresh_of : (l : List ℕ) → stages old ≡ listed → All (λ a. stages a ≢ listed) l → IsFresh old l
    fresh_of [] on off = tt
    fresh_of (a ∷ l) on off =
        ((λ same. off.0 (subst (λ b. stages b ≡ listed) (sym same) on)), fresh_of l on off.1)

-- The chains of another thread under a step of thread `t`
module _ {t u : ℕ} {next next' : NextFields} {stages stages' : ℕ → Stage} (other : u ≢ t)
    (writes : WritesOwn t stages next next')
    (moves : (a : ℕ) → Moves t (stages a) (stages' a)) where
  mine-kept : (l : List ℕ) → AllAt stages (unhooked u) l → AllAt stages' (unhooked u) l
  mine-kept l = All-map l (λ a h. Moves-unhooked t u (stages a) (stages' a) other (moves a) h)

  mine-apart : (l : List ℕ) → AllAt stages (unhooked u) l → All (λ a. ¬ IsOwn t (stages a)) l
  mine-apart l = All-map l (λ a h. not-IsOwn-unhooked t u (stages a) other h)

  condemned-kept : (l : List ℕ) → AllAt stages (condemned u) l → AllAt stages' (condemned u) l
  condemned-kept l = All-map l (λ a h. Moves-condemned t u (stages a) (stages' a) other (moves a) h)

  IsRetired-kept :
      (l : List ℕ) → All (λ a. IsRetired (stages a)) l → All (λ a. IsRetired (stages' a)) l
  IsRetired-kept l = All-map l (λ a h. Moves-IsRetired t (stages a) (stages' a) (moves a) h)

  retired-apart :
      (l : List ℕ) → All (λ a. IsRetired (stages a)) l → All (λ a. ¬ IsOwn t (stages a)) l
  retired-apart l = All-map l (λ a h. not-IsOwn-retired t (stages a) h)

  mine-before :
      (l : List ℕ) (last : ℕ)
      → AllAt stages (unhooked u) (l ++ last ∷ [])
      → AllAt stages (unhooked u) l
  mine-before [] last h = tt
  mine-before (a ∷ l) last h = (h.0, mine-before l last h.1)

  HasChain-kept :
      (first last : ℕ) → HasChain next stages u first last → HasChain next' stages' u first last
  HasChain-kept first last h = record {
    before = h.before;
    chain =
        IsChain-kept t stages next next' first h.before last writes
          (mine-apart h.before (mine-before h.before last h.mine)) h.chain;
    there = h.there;
    apart = h.apart;
    mine = mine-kept (h.before ++ last ∷ []) h.mine;
  }

  IsWalking-kept :
      (first tail : ℕ) → IsWalking next stages u first tail → IsWalking next' stages' u first tail
  IsWalking-kept first tail h = record {
    before = h.before;
    after = h.after;
    chain =
        IsChain-kept t stages next next' first h.before tail writes (mine-apart h.before h.mine)
          h.chain;
    rest =
        IsChain-kept t stages next next' tail (tail ∷ h.after) nullptr writes
          (mine-apart (tail ∷ h.after) h.mine_after) h.rest;
    mine = mine-kept h.before h.mine;
    mine_after = mine-kept (tail ∷ h.after) h.mine_after;
  }

  HasFound-kept : (c : ℕ) → HasFound next stages c → HasFound next' stages' c
  HasFound-kept c h = record {
    nodes = h.nodes;
    chain =
        IsChain-kept t stages next next' c h.nodes nullptr writes (retired-apart h.nodes h.retired)
          h.chain;
    retired = IsRetired-kept h.nodes h.retired;
  }

  IsPopping-kept :
      (old after : ℕ) → IsPopping next stages old after → IsPopping next' stages' old after
  IsPopping-kept old after h = record {
    there = h.there;
    known = Moves-not_fresh t (stages old) (stages' old) (moves old) h.known;
    link = λ on.
        let before = Moves-listed t (stages old) (stages' old) (moves old) h.known on in
        elim (writes old) [
          | inl e ↦ e ∙ h.link before
          | inr own ↦ absurd (not-IsOwn-listed t (stages old) before own)
        ];
  }

retired-not_listed : (f : Stage) → IsRetired f → f ≢ listed
unfolding IsRetired
retired-not_listed f h e = subst IsRetired e h

-- A step of one thread keeps what holds of another.
pub IsLocal-kept :
    (t u : ℕ) (next next' : NextFields) (stages stages' : ℕ → Stage) (threads : ℕ → Thread)
    (thread : Thread)
    → u ≢ t
    → Respects t next next' stages stages' threads thread
    → (other : Thread) → threads u ≡ other
    → IsLocal next stages threads u other
    → IsLocal next' stages' (update_at threads t thread) u other
unfolding IsLocal
IsLocal-kept t u next next' stages stages' threads thread apart r idle at h = tt
IsLocal-kept t u next next' stages stages' threads thread apart r (pushing node) at h = record {
  there = h.there;
  new = r.pushes u node apart at ∙ h.new;
}
IsLocal-kept t u next next' stages stages' threads thread apart r guarded at h = tt
IsLocal-kept t u next next' stages stages' threads thread apart r (loaded old) at h = record {
  there = h.there;
  known = Moves-not_fresh t (stages old) (stages' old) (r.moves old) h.known;
  alive = r.spares u old apart at;
}
IsLocal-kept t u next next' stages stages' threads thread apart r (popping old after) at h =
    IsPopping-kept apart r.writes r.moves old after h
IsLocal-kept t u next next' stages stages' threads thread apart r clearing at h = tt
IsLocal-kept t u next next' stages stages' threads thread apart r (walking first tail) at h =
    IsWalking-kept apart r.writes r.moves first tail h
IsLocal-kept t u next next' stages stages' threads thread apart r (holding_chain first last) at h =
    HasChain-kept apart r.writes r.moves first last h
IsLocal-kept t u next next' stages stages' threads thread apart r (collecting first last) at h =
    HasChain-kept apart r.writes r.moves first last h
IsLocal-kept t u next next' stages stages' threads thread apart r trying at h = tt
IsLocal-kept t u next next' stages stages' threads thread apart r (found c) at h =
    HasFound-kept apart r.writes r.moves c h
IsLocal-kept t u next next' stages stages' threads thread apart r (alone c) at h = record {
  nodes = h.nodes;
  chain =
      IsChain-kept t stages next next' c h.nodes nullptr r.writes
        (retired-apart apart r.writes r.moves h.nodes h.retired) h.chain;
  retired = IsRetired-kept apart r.writes r.moves h.nodes h.retired;
  unheld =
      IsUnheld-kept stages threads t thread h.nodes r.loads
        (All-map h.nodes (λ a k. retired-not_listed (stages a) k) h.retired) h.unheld;
}
IsLocal-kept t u next next' stages stages' threads thread apart r (deleting c) at h = record {
  nodes = h.nodes;
  chain =
      IsChain-kept t stages next next' c h.nodes nullptr r.writes
        (All-map h.nodes (λ a k. not-IsOwn-condemned t u (stages a) k) h.mine) h.chain;
  mine = condemned-kept apart r.writes r.moves h.nodes h.mine;
  unheld =
      IsUnheld-kept stages threads t thread h.nodes r.loads
        (All-map h.nodes (λ a k e. absurd (clash (sym k ∙ e))) h.mine) h.unheld;
}
  where
    clash : condemned u ≢ listed
    clash e = cc
IsLocal-kept t u next next' stages stages' threads thread apart r leaving at h = tt
