-- ===== src/Prelude/Order.antt =====
-- "Shorter than" on lists is well founded.
use Prim.Native.Nat.{ℕ, zero, suc, ◌<◌}
use mathlib.Core.List.{List}
use mathlib.Core.WellFounded.{Acc, WellFounded}
use native.Mathlib.Omega.{arith}
use prototype_bundle.Prelude.Lists.{length}

module _ {ℓ} {A : Type ℓ} where
  abbrev pub Shorter : List A → List A → Type 0
  Shorter xs ys = length xs < length ys

  Acc-shorter : (k : ℕ) (xs : List A) → length xs < k → Acc Shorter xs
  Acc-shorter zero xs h = absurd (omega arith)
  Acc-shorter (suc k) xs h = Acc.intro xs (λ ys shorter. Acc-shorter k ys (omega arith))

  unfoldable pub Shorter-wf : WellFounded Shorter
  unfolding Acc-shorter
  Shorter-wf = record { apply = λ xs. Acc-shorter (suc (length xs)) xs (omega arith) }
