-- ===== src/CoEvent/Callback.antt =====
-- Who is resumed by an event of nanocockpit/lib/coroutine.h.
use aideck_gap8_examples.Base.{
  ℕ, zero, suc, ◌<◌, ◌≤◌, ◌≡◌, ◌≢◌, sym, ◌∙◌, false, List, [], ◌∷◌, ◌++◌, append_assoc, append-nil,
  length, length-append, Misses, Distinct, ==_of_eq, ==_of_ne, ok, arith,
}
use aideck_gap8_examples.Spi.{null}
use aideck_gap8_examples.LinkedList
use aideck_gap8_examples.LinkedList.{ListHead, Fault, pop_front}
use aideck_gap8_examples.LinkedList.Chain.{Chain, append_lem, pop_front_lem}
use aideck_gap8_examples.CoEvent.{Event, callback, wait}

callback-more :
    (fuel : ℕ) (e : Event) (x : ℕ)
    → (pop_front e.waiting).1 ≡ x
    → x ≢ null
    → callback (suc fuel) e
      ≡ callback fuel (record e { waiting = (pop_front e.waiting).0; pushed = e.pushed ++ x ∷ [] })
unfolding callback
callback-more fuel e x p n = rw (p, ==_of_ne n)

callback-none : (fuel : ℕ) (e : Event) → e.waiting.first ≡ null → callback fuel e ≡ ok e
unfolding callback LinkedList.pop_front
callback-none zero e h = rw (==_of_eq h)
callback-none (suc fuel) e h = ground (arith, h)

-- `co_event_callback` on an event where distinct contexts wait resumes each of them exactly once,
-- in the order in which they wait, and leaves nobody waiting; a round for each is enough.
pub callback_lem :
    (fuel : ℕ) (e : Event) (xs : List ℕ)
    → length xs ≤ fuel
    → Chain e.waiting.next e.waiting.first xs
    → Distinct xs
    → (e' : Event) × (callback fuel e ≡ ok e')
      × (e'.waiting.first ≡ null)
      × (e'.pushed ≡ e.pushed ++ xs)
callback_lem fuel e [] f c d = (e, callback-none fuel e c, c, sym (append-nil e.pushed))
callback_lem zero e (x ∷ xs) f c d = absurd (omega arith)
callback_lem (suc fuel) e (x ∷ xs) f c d =
    let (p, _, rest) = pop_front_lem e.waiting x xs c d in
    let next : Event = record e {
      waiting = (pop_front e.waiting).0;
      pushed = e.pushed ++ x ∷ [];
    } in
    let (e', r, empty, all) = callback_lem fuel next xs (omega arith) rest d.1 in
    (e', callback-more fuel e x p c.1 ∙ r, empty, all ∙ append_assoc e.pushed (x ∷ []) xs)

wait-more :
    (fuel : ℕ) (e : Event) (ctx : ℕ) (h : ListHead)
    → e.done ≡ false
    → LinkedList.append fuel e.waiting ctx ≡ ok h
    → wait fuel e ctx ≡ ok (record e { waiting = h })
unfolding wait
wait-more fuel e ctx h d a = rw (a, d)

-- A context that waits on an event that is not done, while distinct others do, is resumed by
-- `co_event_callback` after all of them, and each exactly once.
pub wait-callback :
    (fuel : ℕ) (e : Event) (ctx : ℕ) (xs : List ℕ)
    → length xs < fuel
    → Chain e.waiting.next e.waiting.first xs
    → Distinct (xs ++ ctx ∷ [])
    → Distinct xs
    → Misses ctx xs
    → ctx ≢ null
    → e.waiting.next ctx ≡ null
    → e.done ≡ false
    → (e' e'' : Event) × (wait fuel e ctx ≡ ok e')
      × (callback fuel e' ≡ ok e'')
      × (e''.waiting.first ≡ null)
      × (e''.pushed ≡ e.pushed ++ (xs ++ ctx ∷ []))
wait-callback fuel e ctx xs f c d' d m ne z undone =
    let (h, a, chain) = append_lem fuel e.waiting ctx xs (omega arith) c d m ne z in
    let (e'', r, empty, all) =
      callback_lem fuel (record e { waiting = h }) (xs ++ ctx ∷ [])
        (omega (arith, length-append xs (ctx ∷ []))) chain d' in
    (record e { waiting = h }, e'', wait-more fuel e ctx h undone a, r, empty, all)
