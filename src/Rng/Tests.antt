-- ===== src/Rng/Tests.antt =====
-- Draws from a word, for nanocockpit/lib/rng.c.
use aideck_gap8_examples.Base.{ℕ, ◌%◌, ◌^◌, ◌≡◌, List, [], ◌∷◌, ok, arith}
use aideck_gap8_examples.Rng.{Rng, init, push_entropy}
use aideck_gap8_examples.Rng.Draws.{draw, join, draws_lem}

draws_lem_example :
    (outputs : List ℕ) × (g' : Rng) × (draw (8 ∷ 3 ∷ 16 ∷ []) (push_entropy 0xCAFEBABE init)
      ≡ ok (outputs, g'))
    × (join (8 ∷ 3 ∷ 16 ∷ []) outputs ≡ 0xCAFEBABE % 2 ^ 27)
draws_lem_example = draws_lem (8 ∷ 3 ∷ 16 ∷ []) 0xCAFEBABE init (omega arith) (omega arith)
