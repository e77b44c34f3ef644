-- ===== src/EventGroup/Once.antt =====
-- Each wait of nanocockpit/lib/event_group.h is resumed once.
use aideck_gap8_examples.Base.{
  ℕ, ◌≡◌, ◌≢◌, refl, ap, ◌∙◌, ◌⊎◌, inl, inr, Bool, true, false, List, [], ◌∷◌, ◌++◌, ◌==◌,
  Bool-cases, if◌then◌else◌, ℕ_discrete, Outcome, ok, exit, ◌>>=◌, arith,
}
use aideck_gap8_examples.Spi.{null}
use aideck_gap8_examples.EventGroup.{
  Mask, both, either, without, any_of, none_set, all_of, WaitMode, any, all, Fault, multiple_waits,
  Group, test, update, set, clear, wait_begin, wait_end, wait,
}

any_of-without : (m w c : Mask) → any_of m w ≡ false → any_of (without m c) w ≡ false
unfolding any_of without
any_of-without [] w c h = refl
any_of-without (b ∷ m) [] [] h = refl
any_of-without (b ∷ m) [] (d ∷ c) h = refl
any_of-without (b ∷ m) (a ∷ w) [] h = h
any_of-without (b ∷ m) (a ∷ w) (d ∷ c) h = ground (arith, any_of-without m w c)

all_of-without : (m w c : Mask) → all_of m w ≡ false → all_of (without m c) w ≡ false
unfolding all_of without
all_of-without [] w c h = h
all_of-without (b ∷ m) [] c h = ground arith
all_of-without (b ∷ m) (a ∷ w) [] h = h
all_of-without (b ∷ m) (a ∷ w) (d ∷ c) h = ground (arith, all_of-without m w c)

any_of-either : (m w c : Mask) → any_of m w ≡ true → any_of (either m c) w ≡ true
unfolding any_of either
any_of-either [] w c h = ground arith
any_of-either (b ∷ m) [] c h = ground arith
any_of-either (b ∷ m) (a ∷ w) [] h = h
any_of-either (b ∷ m) (a ∷ w) (d ∷ c) h = ground (arith, any_of-either m w c)

all_of-none_set : (m w : Mask) → none_set w ≡ true → all_of m w ≡ true
unfolding all_of none_set
all_of-none_set [] w h = h
all_of-none_set (b ∷ m) [] h = refl
all_of-none_set (b ∷ m) (a ∷ w) h = ground (arith, all_of-none_set m w)

all_of-either : (m w c : Mask) → all_of m w ≡ true → all_of (either m c) w ≡ true
unfolding all_of either
all_of-either [] w c h = all_of-none_set c w h
all_of-either (b ∷ m) [] [] h = refl
all_of-either (b ∷ m) [] (d ∷ c) h = refl
all_of-either (b ∷ m) (a ∷ w) [] h = h
all_of-either (b ∷ m) (a ∷ w) (d ∷ c) h = ground (arith, all_of-either m w c)

test-without :
    (m w c : Mask) (mode : WaitMode) → test m w mode ≡ false → test (without m c) w mode ≡ false
unfolding test
test-without m w c any h = any_of-without m w c h
test-without m w c all h = all_of-without m w c h

pub test-either :
    (m w c : Mask) (mode : WaitMode) → test m w mode ≡ true → test (either m c) w mode ≡ true
unfolding test
test-either m w c any h = any_of-either m w c h
test-either m w c all h = all_of-either m w c h

-- Whoever waits still waits for something.
abbrev pub IsValid : Group → Type 0
IsValid g = g.wait_ctx ≢ null → test g.mask g.wait_mask g.wait_mode ≡ false

-- The contexts that wait or were resumed, latest first.
abbrev pub accounted : Group → List ℕ
accounted g = if g.wait_ctx == null then g.pushed else g.wait_ctx ∷ g.pushed

pub data Op : Type 0 where
  set_bits clear_bits : Mask → Op
  wait_for : ℕ → Mask → WaitMode → Op

unfoldable pub step : Group → Op → Outcome Fault Group
step g (set_bits m) = ok (set g m)
step g (clear_bits m) = ok (clear g m).0
step g (wait_for c m mode) = wait g c m mode

unfoldable pub run : Group → List Op → Outcome Fault Group
run g [] = ok g
run g (op ∷ ops) = do g' ← step g op; run g' ops

-- The contexts that wait in a sequence of operations, added to those before.
abbrev pub arrivals : List Op → List ℕ → List ℕ
arrivals [] before = before
arrivals (set_bits m ∷ ops) before = arrivals ops before
arrivals (clear_bits m ∷ ops) before = arrivals ops before
arrivals (wait_for c m mode ∷ ops) before = arrivals ops (c ∷ before)

-- Contexts are not NULL.
abbrev pub AreContexts : List Op → Type 0
AreContexts [] = Unit
AreContexts (set_bits m ∷ ops) = AreContexts ops
AreContexts (clear_bits m ∷ ops) = AreContexts ops
AreContexts (wait_for c m mode ∷ ops) = (c ≢ null) × AreContexts ops

update-IsValid : (g : Group) → IsValid (update g)
unfolding update
update-IsValid g = ground arith

update-accounted : (g : Group) → accounted (update g) ≡ accounted g
unfolding update
update-accounted g = ground arith

clear-IsValid : (g : Group) (m : Mask) → IsValid g → IsValid (clear g m).0
unfolding clear
clear-IsValid g m v ne = test-without g.mask g.wait_mask (both g.mask m) g.wait_mode (v ne)

clear-accounted : (g : Group) (m : Mask) → accounted (clear g m).0 ≡ accounted g
unfolding clear
clear-accounted g m = refl

set-IsValid : (g : Group) (m : Mask) → IsValid (set g m)
unfolding set
set-IsValid g m = update-IsValid (record g { mask = either g.mask m })

set-accounted : (g : Group) (m : Mask) → accounted (set g m) ≡ accounted g
unfolding set
set-accounted g m = update-accounted (record g { mask = either g.mask m })

run-nil : (g : Group) → run g [] ≡ ok g
unfolding run
run-nil g = refl

step-set : (g : Group) (m : Mask) → step g (set_bits m) ≡ ok (set g m)
unfolding step
step-set g m = refl

step-clear : (g : Group) (m : Mask) → step g (clear_bits m) ≡ ok (clear g m).0
unfolding step
step-clear g m = refl

step-wait :
    (g : Group) (c : ℕ) (m : Mask) (mode : WaitMode) → step g (wait_for c m mode) ≡ wait g c m mode
unfolding step
step-wait g c m mode = refl

-- With nobody waiting, a wait is accepted; its context is resumed at once if its condition holds,
-- and registered otherwise.
wait_lem :
    (g : Group) (c : ℕ) (m : Mask) (mode : WaitMode)
    → c ≢ null
    → g.wait_ctx ≡ null
    → (g' : Group) × (wait g c m mode ≡ ok g') × IsValid g' × (accounted g' ≡ c ∷ accounted g)
unfolding wait wait_begin wait_end
wait_lem g c m mode ne e = elim (Bool-cases (test g.mask m mode)) [
  | inl t ↦ (
    record {
      mask = g.mask;
      wait_ctx = null;
      wait_mask = m;
      wait_mode = mode;
      pushed = c ∷ g.pushed;
    },
    ground (arith, t),
    λ z. absurd (z refl),
    ground arith,
  )
  | inr t ↦ (
    record { mask = g.mask; wait_ctx = c; wait_mask = m; wait_mode = mode; pushed = g.pushed },
    ground (arith, t),
    λ z. t,
    ground arith,
  )
]

wait_busy :
    (g : Group) (c : ℕ) (m : Mask) (mode : WaitMode)
    → g.wait_ctx ≢ null
    → wait g c m mode ≡ exit multiple_waits
unfolding wait wait_begin
wait_busy g c m mode ne = ground arith

run-step :
    (g g' : Group) (op : Op) (ops : List Op) (r : Outcome Fault Group)
    → step g op ≡ ok g'
    → run g' ops ≡ r
    → run g (op ∷ ops) ≡ r
unfolding run
run-step g g' op ops r e f = rw e f

run-busy :
    (g : Group) (c : ℕ) (m : Mask) (mode : WaitMode) (ops : List Op)
    → g.wait_ctx ≢ null
    → run g (wait_for c m mode ∷ ops) ≡ exit multiple_waits
unfolding run step
run-busy g c m mode ops ne = rw (wait_busy g c m mode ne)

-- Some operation waits while another context does.
pub record Collides (g : Group) (ops : List Op) : Type 0 where
  pub before : List Op
  pub context : ℕ
  pub wait_mask : Mask
  pub mode : WaitMode
  pub later : List Op
  pub busy : Group
  pub split : ops ≡ before ++ wait_for context wait_mask mode ∷ later
  pub reached : run g before ≡ ok busy
  pub waits : busy.wait_ctx ≢ null

-- The result of a sequence of operations.
abbrev pub Ends : Group → List Op → Type 0
Ends g ops =
    ((g' : Group) × (run g ops ≡ ok g') × IsValid g' × (accounted g' ≡ arrivals ops (accounted g)))
    ⊎ ((run g ops ≡ exit multiple_waits) × Collides g ops)

Collides-step :
    (g g' : Group) (op : Op) (ops : List Op)
    → step g op ≡ ok g'
    → Collides g' ops
    → Collides g (op ∷ ops)
Collides-step g g' op ops e k = record {
  before = op ∷ k.before;
  context = k.context;
  wait_mask = k.wait_mask;
  mode = k.mode;
  later = k.later;
  busy = k.busy;
  split = ap (◌∷◌ op) k.split;
  reached = run-step g g' op k.before (ok k.busy) e k.reached;
  waits = k.waits;
}

-- A step that succeeds, before operations whose result is known.
Ends-step :
    (g g' : Group) (op : Op) (ops : List Op)
    → step g op ≡ ok g'
    → arrivals ops (accounted g') ≡ arrivals (op ∷ ops) (accounted g)
    → Ends g' ops
    → Ends g (op ∷ ops)
Ends-step g g' op ops e a (inl (h, r, v, k)) = inl (h, run-step g g' op ops (ok h) e r, v, k ∙ a)
Ends-step g g' op ops e a (inr (r, k)) =
    inr (run-step g g' op ops (exit multiple_waits) e r, Collides-step g g' op ops e k)

-- Any sequence of `co_event_group_set`, `co_event_group_clear` and `co_event_group_wait` on a
-- group where whoever waits still waits for something: either it runs without a failed assertion,
-- and then that still holds, and each context that waited is either still registered or was
-- resumed, exactly once for each wait and in the order of the waits; or some operation waits while
-- another context does, and the assertion on multiple waits fails.
pub run_once : (g : Group) (ops : List Op) → IsValid g → AreContexts ops → Ends g ops
run_once g [] v k = inl (g, run-nil g, v, refl)
run_once g (set_bits m ∷ ops) v k =
    Ends-step g (set g m) (set_bits m) ops (step-set g m) (ap (arrivals ops) (set-accounted g m))
      (run_once (set g m) ops (set-IsValid g m) k)
run_once g (clear_bits m ∷ ops) v k =
    Ends-step g (clear g m).0 (clear_bits m) ops (step-clear g m)
      (ap (arrivals ops) (clear-accounted g m)) (run_once (clear g m).0 ops (clear-IsValid g m v) k)
run_once g (wait_for c m mode ∷ ops) v (ne, k) = elim (ℕ_discrete g.wait_ctx null) [
  | yes e ↦
      let (g', w, v', a) = wait_lem g c m mode ne e in
      Ends-step g g' (wait_for c m mode) ops (step-wait g c m mode ∙ w) (ap (arrivals ops) a)
        (run_once g' ops v' k)
  | no busy ↦ inr (
    run-busy g c m mode ops busy,
    record {
      before = [];
      context = c;
      wait_mask = m;
      mode = mode;
      later = ops;
      busy = g;
      split = refl;
      reached = run-nil g;
      waits = busy;
    },
  )
]

-- `co_event_group_wait` on a group where nobody waits and whose condition holds already, with an
-- interrupt that calls `co_event_group_set` after interrupts are enabled again and before the
-- rest: the context is resumed twice.
pub wait-set-resumes_twice :
    (g : Group) (c : ℕ) (m : Mask) (mode : WaitMode) (new : Mask)
    → c ≢ null
    → g.wait_ctx ≡ null
    → test g.mask m mode ≡ true
    → (g' : Group) × (wait_done : Bool) × (wait_begin g c m mode ≡ ok (g', wait_done))
      × ((wait_end (set g' new) c wait_done).pushed ≡ c ∷ c ∷ g.pushed)
unfolding wait_begin wait_end set update
wait-set-resumes_twice g c m mode new ne e t = (
  record { mask = g.mask; wait_ctx = c; wait_mask = m; wait_mode = mode; pushed = g.pushed },
  true,
  ground (arith, t),
  ground (arith, test-either g.mask m new mode t),
)
