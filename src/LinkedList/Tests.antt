-- ===== src/LinkedList/Tests.antt =====
-- A list of two elements of nanocockpit/lib/list.h, at the addresses 8 and 16.
use aideck_gap8_examples.Base.{ℕ_discrete, ◌≡◌, refl, [], ◌∷◌, ok, arith}
use aideck_gap8_examples.LinkedList.{link, ListHead, append, pop_front, clear}
use aideck_gap8_examples.LinkedList.Chain.{Chain, append_lem, pop_front_lem, clear_lem}

abbrev two : ListHead
two = record { first = 8; next = link (λ a. 0) 8 16 }

append_lem_example :
    (h' : ListHead) × (append 2 two 24 ≡ ok h') × Chain h'.next h'.first (8 ∷ 16 ∷ 24 ∷ [])
unfolding ℕ_discrete
append_lem_example =
    append_lem 2 two 24 (8 ∷ 16 ∷ []) (omega arith) (refl, omega arith, (refl, omega arith, refl))
      (omega arith) (omega arith) (omega arith) refl

pop_front_lem_example :
    ((pop_front two).1 ≡ 8)
    × ((pop_front two).0.next 8 ≡ 0)
    × Chain (pop_front two).0.next (pop_front two).0.first (16 ∷ [])
unfolding ℕ_discrete
pop_front_lem_example =
    pop_front_lem two 8 (16 ∷ []) (refl, omega arith, (refl, omega arith, refl)) (omega arith)

clear_lem_example : (h' : ListHead) × (clear 2 two ≡ ok h') × (h'.first ≡ 0)
unfolding ℕ_discrete
clear_lem_example =
    clear_lem 2 two (8 ∷ 16 ∷ []) (omega arith) (refl, omega arith, (refl, omega arith, refl))
      (omega arith)
