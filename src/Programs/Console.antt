-- ===== src/Programs/Console.antt =====
-- console_input.cpp: the loop that reads keys in raw mode until the escape key.
use prototype_bundle.Prelude.{
  ℕ, suc, ◌+◌, ◌==◌, Bool, true, false, if◌then◌else◌, List, [], ◌∷◌, ◌++◌, length, refl, ap, ◌≡◌,
  All, map, ◌∙◌, sym, append-nil, arith,
}

-- What `read` of one character does: it stores a character and returns 1, returns 0, or fails and
-- leaves `char_in` as it was, which is not initialised: the value it then happens to have.
pub data Read : Type 0 where
  stored : ℕ → Read
  returned_zero : Read
  failed : ℕ → Read

-- `char_in` after `read` and the test of its result
abbrev pub char_in : Read → ℕ
char_in (stored c) = c
char_in returned_zero = 0
char_in (failed c) = c

abbrev pub is_escape : Read → Bool
is_escape r = char_in r == 27

-- What the program does to the terminal, with the modes of the terminal's library
pub data Effect {ℓ} (A : Type ℓ) : Type ℓ where
  set_mode : A → Effect A
  print_begin : Effect A
  print_end : Effect A
  read_char : Read → Effect A

-- No read brings the escape key.
abbrev pub NoEscape : List Read → Type 0
NoEscape = All (λ r. is_escape r ≡ false)

add_zero : (n : ℕ) → n + 0 ≡ n
add_zero n = omega arith

length-before : (before : List Read) (r : Read) → length (before ++ r ∷ []) ≡ suc (length before)
length-before [] r = refl
length-before (b ∷ before) r = ap suc (length-before before r)

module _ {ℓ} {A : Type ℓ} where
  -- `while (running)` on the results that `read` has in turn: what it does, then what `leave` does
  -- when the loop has ended; it is still waiting when the results run out.
  pub loop : List (Effect A) → List Read → List (Effect A) × Bool
  loop leave [] = ([], false)
  loop leave (r ∷ reads) =
      let rest = loop leave reads in
      if is_escape r then (read_char r ∷ leave, true) else (read_char r ∷ rest.0, rest.1)

  -- `main`, with the mode that the terminal has and the one that `cfmakeraw` makes, and whether it
  -- has returned
  pub main : A → A → List Read → List (Effect A) × Bool
  main original raw reads =
      let rest = loop (set_mode original ∷ print_end ∷ []) reads in
      (set_mode raw ∷ print_begin ∷ rest.0, rest.1)

  -- The mode of the terminal after the effects
  pub mode_after : A → List (Effect A) → A
  mode_after mode [] = mode
  mode_after mode (set_mode m ∷ effects) = mode_after m effects
  mode_after mode (print_begin ∷ effects) = mode_after mode effects
  mode_after mode (print_end ∷ effects) = mode_after mode effects
  mode_after mode (read_char r ∷ effects) = mode_after mode effects

  -- How many characters the effects read
  pub reads_of : List (Effect A) → ℕ
  reads_of [] = 0
  reads_of (set_mode m ∷ effects) = reads_of effects
  reads_of (print_begin ∷ effects) = reads_of effects
  reads_of (print_end ∷ effects) = reads_of effects
  reads_of (read_char r ∷ effects) = suc (reads_of effects)

  loop-stops :
      (leave : List (Effect A)) (before : List Read) (r : Read) (after : List Read)
      → NoEscape before
      → is_escape r ≡ true
      → loop leave (before ++ r ∷ after) ≡ (map read_char (before ++ r ∷ []) ++ leave, true)
  unfolding loop NoEscape
  loop-stops leave [] r after none_before here = rw here refl
  loop-stops leave (b ∷ before) r after none_before here =
      rw (none_before.0, loop-stops leave before r after none_before.1 here) refl

  loop-waits :
      (leave : List (Effect A)) (reads : List Read)
      → NoEscape reads
      → loop leave reads ≡ (map read_char reads, false)
  unfolding loop NoEscape
  loop-waits leave [] no_escape = refl
  loop-waits leave (b ∷ reads) no_escape = rw (no_escape.0, loop-waits leave reads no_escape.1) refl

  mode_after-reads :
      (mode : A) (reads : List Read) (effects : List (Effect A))
      → mode_after mode (map read_char reads ++ effects) ≡ mode_after mode effects
  unfolding mode_after
  mode_after-reads mode [] effects = refl
  mode_after-reads mode (r ∷ reads) effects = mode_after-reads mode reads effects

  reads_of-reads :
      (reads : List Read) (effects : List (Effect A))
      → reads_of (map read_char reads ++ effects) ≡ length reads + reads_of effects
  unfolding reads_of
  reads_of-reads [] effects = omega arith
  reads_of-reads (r ∷ reads) effects = let rest = reads_of-reads reads effects in omega arith

  -- When the reads bring the escape key, `main` returns, reads nothing after the first of them, and
  -- leaves the terminal in the mode that it found.
  pub main-escape :
      (original raw : A) (before : List Read) (r : Read) (after : List Read)
      → NoEscape before
      → is_escape r ≡ true
      → ((main original raw (before ++ r ∷ after)).1 ≡ true)
        × (reads_of (main original raw (before ++ r ∷ after)).0 ≡ suc (length before))
        × (mode_after original (main original raw (before ++ r ∷ after)).0 ≡ original)
  unfolding main mode_after reads_of
  main-escape original raw before r after none_before here =
      let leave = set_mode original ∷ print_end ∷ [] in
      let stops = loop-stops leave before r after none_before here in
      (
        ap (λ o. o.1) stops,
        ap (λ o. reads_of o.0) stops
            ∙ reads_of-reads (before ++ r ∷ []) leave
            ∙ (add_zero (length (before ++ r ∷ [])) ∙ length-before before r),
        ap (λ o. mode_after raw o.0) stops ∙ mode_after-reads raw (before ++ r ∷ []) leave,
      )

  -- As long as the reads bring no escape key, the end of the input and failures included, `main`
  -- does not return, and the terminal stays in the raw mode.
  pub main-NoEscape :
      (original raw : A) (reads : List Read)
      → NoEscape reads
      → ((main original raw reads).1 ≡ false)
        × (reads_of (main original raw reads).0 ≡ length reads)
        × (mode_after original (main original raw reads).0 ≡ raw)
  unfolding main mode_after reads_of
  main-NoEscape original raw reads no_escape =
      let leave = set_mode original ∷ print_end ∷ [] in
      let waits =
        loop-waits leave reads no_escape
        ∙ ap (λ l. (l, false)) (sym (append-nil (map read_char reads))) in
      (
        ap (λ o. o.1) waits,
        ap (λ o. reads_of o.0) waits ∙ reads_of-reads reads [] ∙ add_zero (length reads),
        ap (λ o. mode_after raw o.0) waits ∙ mode_after-reads raw reads [],
      )
