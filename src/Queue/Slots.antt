-- ===== src/Queue/Slots.antt =====
-- What nanocockpit/lib/queue.h promises, with no indices: each slot of the buffer is in one of
-- four lists, oldest first. Slots are named by their addresses.
use aideck_gap8_examples.Base.{ℕ, Bool, List, [], ◌∷◌, ◌++◌, ◌!=◌, if◌then◌else◌, Outcome, ok, exit}
use aideck_gap8_examples.Queue.{
  Fault, null, no_acquired, commit_out_of_order, discard_out_of_order, no_consumed,
  release_out_of_order,
}

pub record Slots : Type 0 where
  pub consumed : List ℕ
  pub ready : List ℕ
  pub acquired : List ℕ
  pub free : List ℕ

-- The oldest element, or NULL.
unfoldable pub peek : Slots → ℕ
peek s = elim s.ready [ [] ↦ null | x ∷ rest ↦ x ]

unfoldable pub consume : Slots → ℕ × Slots
consume s = elim s.ready [
  | [] ↦ (null, s)
  | x ∷ rest ↦ (x, record s { consumed = s.consumed ++ x ∷ []; ready = rest })
]

-- Elements are released in the order in which they were consumed.
unfoldable pub release : Slots → ℕ → Outcome Fault Slots
release s el = elim s.consumed [
  | [] ↦ exit no_consumed
  | x ∷ rest ↦
      if el != x
      then exit release_out_of_order
      else ok (record s { consumed = rest; free = s.free ++ x ∷ [] })
]

-- An overwriting push takes the oldest ready slot, but only if nothing is being consumed.
unfoldable pub overwrite_oldest : Slots → Outcome Fault (ℕ × Slots)
overwrite_oldest s = elim s.ready [
  | [] ↦ ok (null, s)
  | y ∷ rest ↦ elim s.consumed [
    | [] ↦ ok (y, record s { ready = rest; acquired = s.acquired ++ y ∷ [] })
    | x ∷ others ↦ exit release_out_of_order
  ]
]

unfoldable pub acquire : Slots → Bool → Outcome Fault (ℕ × Slots)
unfolding overwrite_oldest
acquire s overwrite = elim s.free [
  | [] ↦ if overwrite then overwrite_oldest s else ok (null, s)
  | x ∷ rest ↦ ok (x, record s { acquired = s.acquired ++ x ∷ []; free = rest })
]

-- Elements are committed in the order in which they were acquired.
unfoldable pub commit : Slots → ℕ → Outcome Fault Slots
commit s el = elim s.acquired [
  | [] ↦ exit no_acquired
  | x ∷ rest ↦
      if el != x
      then exit commit_out_of_order
      else ok (record s { ready = s.ready ++ x ∷ []; acquired = rest })
]

abbrev pub last_or : ℕ → List ℕ → ℕ
last_or d [] = d
last_or d (x ∷ xs) = last_or x xs

abbrev pub init_of : ℕ → List ℕ → List ℕ
init_of x [] = []
init_of x (y ∷ ys) = x ∷ init_of y ys

-- The slot that was acquired last goes back to the head of the free ones.
unfoldable pub discard : Slots → ℕ → Outcome Fault Slots
discard s el = elim s.acquired [
  | [] ↦ exit no_acquired
  | x ∷ xs ↦
      if el != last_or x xs
      then exit discard_out_of_order
      else ok (record s { acquired = init_of x xs; free = last_or x xs ∷ s.free })
]
