-- ===== src/LinkedList/Chain.antt =====
-- The operations of nanocockpit/lib/list.h on the list of the elements' addresses.
use aideck_gap8_examples.Base.{
  ℕ, zero, suc, ◌<◌, ◌≤◌, ◌≡◌, ◌≢◌, refl, sym, ap, subst, ◌∙◌, List, [], ◌∷◌, ◌++◌, length, Misses,
  Distinct, ==_of_eq, ==_of_ne, ℕ_discrete, ok, arith,
}
use mathlib.Core.Logic.{if_pos, if_neg}
use aideck_gap8_examples.Spi.{null}
use aideck_gap8_examples.LinkedList.{Next, link, ListHead, last_from, append, pop_front, clear}

-- The elements from an address on are those of a list, none of them NULL.
abbrev pub Chain : Next → ℕ → List ℕ → Type 0
Chain next first [] = first ≡ null
Chain next first (x ∷ xs) = (first ≡ x) × (x ≢ null) × Chain next (next x) xs

link_self : (next : Next) (el v : ℕ) → link next el v el ≡ v
link_self next el v = if_pos (ℕ_discrete el el) refl v (next el)

link_other : (next : Next) (el v other : ℕ) → el ≢ other → link next el v other ≡ next other
link_other next el v other ne = if_neg (ℕ_discrete el other) ne v (next other)

-- An assignment to an element outside the chain leaves it.
Chain-link :
    (next : Next) (el v first : ℕ) (xs : List ℕ)
    → Misses el xs
    → Chain next first xs
    → Chain (link next el v) first xs
Chain-link next el v first [] m c = c
Chain-link next el v first (x ∷ xs) (ne, m) (e, n, c) = (
  e,
  n,
  subst (λ t. Chain (link next el v) t xs) (sym (link_other next el v x ne))
      (Chain-link next el v (next x) xs m c),
)

-- The last element of a chain, reached with a round for each element, is linked to a new one.
last_from_lem :
    (fuel : ℕ) (next : Next) (el x : ℕ) (xs : List ℕ)
    → length xs < fuel
    → Chain next x (x ∷ xs)
    → Distinct (x ∷ xs)
    → Misses el (x ∷ xs)
    → el ≢ null
    → next el ≡ null
    → (last : ℕ) × (last_from fuel next x ≡ ok last)
      × Chain (link next last el) x (x ∷ xs ++ el ∷ [])
      × ((z : ℕ) → Misses z (x ∷ xs) → last ≢ z)
unfolding last_from
last_from_lem zero next el x xs f c d m ne e = absurd (omega arith)
last_from_lem (suc fuel) next el x [] f (_, n, c) d (ex, _) ne e = (
  x,
  rw (==_of_eq c),
  (refl, n, (link_self next x el, ne, link_other next x el el (λ z. ex (sym z)) ∙ e)),
  λ z k q. k.0 (sym q),
)
last_from_lem (suc fuel) next el x (y ∷ ys) f (_, n, (c, ny, cs)) (dx, d) (ex, m) ne e =
    let tail : Chain next y (y ∷ ys) = (refl, ny, cs) in
    let (last, r, chain, away) = last_from_lem fuel next el y ys (omega arith) tail d m ne e in
    let more : next x ≢ null = (λ z. ny (sym c ∙ z)) in
    let kept : link next last el x ≡ y = link_other next last el x (away x dx) ∙ c in
    (
      last,
      rw (==_of_ne more) (ap (last_from fuel next) c ∙ r),
      (refl, n, subst (λ t. Chain (link next last el) t (y ∷ ys ++ el ∷ [])) (sym kept) chain),
      λ z k. away z k.1,
    )

-- `list_append` on a list of distinct elements puts a new element, which `list_el_init` prepared,
-- behind all others; the loop ends within a round for each element.
pub append_lem :
    (fuel : ℕ) (h : ListHead) (el : ℕ) (xs : List ℕ)
    → length xs ≤ fuel
    → Chain h.next h.first xs
    → Distinct xs
    → Misses el xs
    → el ≢ null
    → h.next el ≡ null
    → (h' : ListHead) × (append fuel h el ≡ ok h') × Chain h'.next h'.first (xs ++ el ∷ [])
unfolding append
append_lem fuel h el [] f c d m ne e = (record h { first = el }, rw (==_of_eq c), (refl, ne, e))
append_lem fuel h el (x ∷ xs) f (c, n, cs) d m ne e =
    let (last, r, chain, _) =
      last_from_lem fuel h.next el x xs (omega arith) (refl, n, cs) d m ne e in
    let some_first : h.first ≢ null = (λ z. n (sym c ∙ z)) in
    (
      record h { next = link h.next last el },
      rw (==_of_ne some_first, ap (last_from fuel h.next) c ∙ r),
      subst (λ t. Chain (link h.next last el) t (x ∷ xs ++ el ∷ [])) (sym c) chain,
    )

pop_front-some :
    (h : ListHead)
    → h.first ≢ null
    → pop_front h ≡ (record { first = h.next h.first; next = link h.next h.first null }, h.first)
unfolding pop_front
pop_front-some h ne = rw (==_of_ne ne)

-- `list_pop_front` on a list of distinct elements returns the first one, with its link reset, and
-- leaves the others in their order.
pub pop_front_lem :
    (h : ListHead) (x : ℕ) (xs : List ℕ)
    → Chain h.next h.first (x ∷ xs)
    → Distinct (x ∷ xs)
    → ((pop_front h).1 ≡ x)
      × ((pop_front h).0.next x ≡ null)
      × Chain (pop_front h).0.next (pop_front h).0.first xs
pop_front_lem h x xs (c, n, cs) (dx, d) =
    let some_first : h.first ≢ null = (λ z. n (sym c ∙ z)) in
    let e = pop_front-some h some_first in
    (
      ap (λ r. r.1) e ∙ c,
      ap (λ r. r.0.next x) e ∙ ap (λ a. link h.next a null x) c ∙ link_self h.next x null,
      subst (λ r. Chain r.0.next r.0.first xs) (sym e)
          (subst (λ a. Chain (link h.next a null) (h.next a) xs) (sym c)
            (Chain-link h.next x null (h.next x) xs dx cs)),
    )

clear-more :
    (fuel : ℕ) (h : ListHead) → h.first ≢ null → clear (suc fuel) h ≡ clear fuel (pop_front h).0
unfolding clear
clear-more fuel h ne = rw (==_of_ne ne)

clear-empty : (fuel : ℕ) (h : ListHead) → h.first ≡ null → clear fuel h ≡ ok h
unfolding clear
clear-empty zero h e = rw (==_of_eq e)
clear-empty (suc fuel) h e = rw (==_of_eq e)

-- `list_clear` on a list of distinct elements ends within a round for each element, with an empty
-- list.
pub clear_lem :
    (fuel : ℕ) (h : ListHead) (xs : List ℕ)
    → length xs ≤ fuel
    → Chain h.next h.first xs
    → Distinct xs
    → (h' : ListHead) × (clear fuel h ≡ ok h') × (h'.first ≡ null)
clear_lem fuel h [] f c d = (h, clear-empty fuel h c, c)
clear_lem zero h (x ∷ xs) f c d = absurd (omega arith)
clear_lem (suc fuel) h (x ∷ xs) f (c, n, cs) (dx, d) =
    let (_, _, rest) = pop_front_lem h x xs (c, n, cs) (dx, d) in
    let (h', r, e) = clear_lem fuel (pop_front h).0 xs (omega arith) rest d in
    (h', clear-more fuel h (λ z. n (sym c ∙ z)) ∙ r, e)
