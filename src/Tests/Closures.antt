-- ===== src/Tests/Closures.antt =====
-- Transitive closures of small relations.
use trav_lang.Common.{ℕ, ◌≡◌, ◌<◌, ◌↔◌, ◌⊎◌, zero, suc, refl, true, [], ◌∷◌, length, get_or, arith}
use trav_lang.Warshall.{Matrix, transitive_closure, reflexive_transitive_closure}
use trav_lang.Warshall.Rows.{entry, IsMatrix}
use trav_lang.Warshall.Closure.{PathIn}
use trav_lang.Warshall.Paths.{transitive_closure-PathIn}
use trav_lang.Warshall.Diagonal.{reflexive_transitive_closure-PathIn}

-- 0 → 1 → 2, and 2 → 1.
abbrev chain : Matrix
chain = (2 ∷ []) ∷ (4 ∷ []) ∷ (2 ∷ []) ∷ []

chain_closed : transitive_closure chain 3 ≡ (6 ∷ []) ∷ (6 ∷ []) ∷ (6 ∷ []) ∷ []
unfolding transitive_closure
chain_closed = refl

chain_reflexive : reflexive_transitive_closure chain 3 ≡ (7 ∷ []) ∷ (6 ∷ []) ∷ (6 ∷ []) ∷ []
unfolding reflexive_transitive_closure
chain_reflexive = refl

one_word : (j : ℕ) → j < 3 → length (get_or chain j []) ≡ 1
one_word zero h = refl
one_word (suc zero) h = refl
one_word (suc (suc zero)) h = refl
one_word (suc (suc (suc j))) h = absurd (omega arith)

chain-IsMatrix : IsMatrix 3 1 chain
chain-IsMatrix = record { rows = refl; sizes = one_word }

transitive_closure-PathIn_example :
    (entry (transitive_closure chain 3) 0 2 ≡ true) ↔ PathIn chain 0 2
transitive_closure-PathIn_example = transitive_closure-PathIn 3 1 chain chain-IsMatrix 0 2

reflexive_transitive_closure-PathIn_example :
    (entry (reflexive_transitive_closure chain 3) 0 2 ≡ true) ↔ (◌≡◌ {A = ℕ} 0 2 ⊎ PathIn chain 0 2)
reflexive_transitive_closure-PathIn_example =
    reflexive_transitive_closure-PathIn 3 1 chain chain-IsMatrix (omega arith) 0 2 (omega arith)
