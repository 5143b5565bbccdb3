-- ===== src/Backup/Failover/Detection.antt =====
-- Three failures in a row, as the detecting loop counts them and as a word about the history.
use mathlib.Core.List.{append_assoc}
use gateway_test.Prelude.{
  ℕ, zero, suc, ◌+◌, ◌<◌, ◌≡◌, refl, sym, ap, ◌∙◌, ◌↔◌, Bool, true, false, List, [], ◌∷◌, ◌++◌,
  arith, leb, if◌then◌else◌, nat_eq, string_eq, replicate,
}

-- The loop's counter, after `n` failures in a row.
unfoldable pub counts_three : ℕ → List Bool → Bool
counts_three n [] = false
counts_three n (false ∷ verdicts) = counts_three 0 verdicts
counts_three n (true ∷ verdicts) =
    let later = counts_three (n + 1) verdicts in if leb 3 (n + 1) then true else later

-- Somewhere three failures stand side by side.
abbrev pub HasThree : List Bool → Type 0
HasThree verdicts =
    (before : List Bool) × (after : List Bool) × (verdicts ≡ before ++ true ∷ true ∷ true ∷ after)

counts_three-HasThree :
    (n : ℕ) (verdicts : List Bool)
    → n < 3
    → counts_three n verdicts ≡ true
    → HasThree (replicate n true ++ verdicts)
unfolding counts_three
counts_three-HasThree n [] h c = cc
counts_three-HasThree n (false ∷ verdicts) h c =
    let (before, after, e) = counts_three-HasThree 0 verdicts (omega arith) c in
    (
      replicate n true ++ false ∷ before,
      after,
      ap (λ vs. replicate n true ++ false ∷ vs) e
          ∙ sym (append_assoc (replicate n true) (false ∷ before) (true ∷ true ∷ true ∷ after)),
    )
counts_three-HasThree zero (true ∷ verdicts) h c = counts_three-HasThree 1 verdicts (omega arith) c
counts_three-HasThree (suc zero) (true ∷ verdicts) h c =
    counts_three-HasThree 2 verdicts (omega arith) c
counts_three-HasThree (suc (suc zero)) (true ∷ verdicts) h c = ([], verdicts, refl)
counts_three-HasThree (suc (suc (suc n))) (true ∷ verdicts) h c = absurd (omega arith)

HasThree-counts_three :
    (n : ℕ) (before after : List Bool)
    → counts_three n (before ++ true ∷ true ∷ true ∷ after) ≡ true
unfolding counts_three
HasThree-counts_three n [] after = ground arith
HasThree-counts_three n (false ∷ before) after = HasThree-counts_three 0 before after
HasThree-counts_three n (true ∷ before) after =
    ground (arith, HasThree-counts_three (n + 1) before after)

pub counts_three_iff : (verdicts : List Bool) → (counts_three 0 verdicts ≡ true) ↔ HasThree verdicts
counts_three_iff verdicts = (
  counts_three-HasThree 0 verdicts (omega arith),
  λ (before, after, e). ap (counts_three 0) e ∙ HasThree-counts_three 0 before after,
)
