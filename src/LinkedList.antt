-- ===== src/LinkedList.antt =====
-- nanocockpit/lib/list.h: intrusive linked lists. The `next` pointers of all elements are a
-- function from addresses to addresses, and 0 is NULL.
pub mod Chain
mod Tests
use aideck_gap8_examples.Base.{
  ℕ, zero, suc, ◌-◌, ◌==◌, ◌!=◌, if◌then◌else◌, ℕ_discrete, Outcome, ok, exit, ◌>>=◌,
}
use mathlib.Core.Logic.{ite}
use aideck_gap8_examples.Spi.{null}

abbrev pub Next : Type 0
Next = ℕ → ℕ

-- An assignment to `el->next`.
abbrev pub link : Next → ℕ → ℕ → Next
link next el v other = ite (ℕ_discrete el other) v (next other)

-- `list_head_t` with the memory that its elements are in.
pub record ListHead : Type 0 where
  pub first : ℕ
  pub next : Next

-- A loop that was given too few rounds.
pub data Fault : Type 0 where
  out_of_fuel : Fault

-- `list_el_init`
unfoldable pub el_init : Next → ℕ → Next
el_init next el = link next el null

-- `list_head_init`
unfoldable pub head_init : ListHead → ListHead
head_init h = record h { first = null }

-- The loop of `list_append`: the last element from `last` on.
unfoldable pub last_from : ℕ → Next → ℕ → Outcome Fault ℕ
last_from zero next last = exit out_of_fuel
last_from (suc fuel) next last =
    let rest = last_from fuel next (next last) in if next last == null then ok last else rest

-- `list_append`
unfoldable pub append : ℕ → ListHead → ℕ → Outcome Fault ListHead
append fuel h el =
    if h.first == null
    then ok (record h { first = el })
    else (do last ← last_from fuel h.next h.first; ok (record h { next = link h.next last el }))

-- `list_pop_front`
unfoldable pub pop_front : ListHead → ListHead × ℕ
pop_front h =
    if h.first == null
    then (h, null)
    else (record { first = h.next h.first; next = link h.next h.first null }, h.first)

-- `list_clear`
unfoldable pub clear : ℕ → ListHead → Outcome Fault ListHead
clear zero h = if h.first == null then ok h else exit out_of_fuel
clear (suc fuel) h = let rest = clear fuel (pop_front h).0 in if h.first == null then ok h else rest
