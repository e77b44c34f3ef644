-- ===== src/EventGroup.antt =====
-- nanocockpit/lib/event_group.h: bits on which a coroutine waits. A mask is the list of its bits
-- from the lowest up, and bits beyond the end of the list are 0; a coroutine context is an
-- address, and 0 is NULL.
pub mod Once
mod Tests
use aideck_gap8_examples.Base.{
  ℕ, Bool, true, false, not, ◌&&◌, ◌||◌, List, [], ◌∷◌, ◌==◌, ◌!=◌, if◌then◌else◌, Outcome, ok,
  exit, ◌>>=◌,
}
use aideck_gap8_examples.Spi.{null}

abbrev pub Mask : Type 0
Mask = List Bool

-- `&`, `|`, and `a & ~b`.
unfoldable pub both : Mask → Mask → Mask
both [] w = []
both (b ∷ m) [] = []
both (b ∷ m) (c ∷ w) = (b && c) ∷ both m w

unfoldable pub either : Mask → Mask → Mask
either [] w = w
either (b ∷ m) [] = b ∷ m
either (b ∷ m) (c ∷ w) = (b || c) ∷ either m w

unfoldable pub without : Mask → Mask → Mask
without [] w = []
without (b ∷ m) [] = b ∷ m
without (b ∷ m) (c ∷ w) = (b && not c) ∷ without m w

-- `(m & w) != 0`, and `(m & w) == w`.
unfoldable pub any_of : Mask → Mask → Bool
any_of [] w = false
any_of (b ∷ m) [] = false
any_of (b ∷ m) (c ∷ w) = (b && c) || any_of m w

unfoldable pub none_set : Mask → Bool
none_set [] = true
none_set (c ∷ w) = not c && none_set w

unfoldable pub all_of : Mask → Mask → Bool
all_of [] w = none_set w
all_of (b ∷ m) [] = true
all_of (b ∷ m) (c ∷ w) = (b || not c) && all_of m w

-- `co_wait_mode_e`
pub data WaitMode : Type 0 where
  any all : WaitMode

pub data Fault : Type 0 where
  multiple_waits : Fault

-- `co_event_group_t`; `pushed` lists the contexts whose resumption was pushed by
-- `co_fn_push_resume`, latest first.
pub record Group : Type 0 where
  pub mask : Mask
  pub wait_ctx : ℕ
  pub wait_mask : Mask
  pub wait_mode : WaitMode
  pub pushed : List ℕ

-- `co_event_group_init`
unfoldable pub init : List ℕ → Group
init pushed = record {
  mask = [];
  wait_ctx = null;
  wait_mask = [];
  wait_mode = any;
  pushed = pushed;
}

-- `co_event_group_test`
unfoldable pub test : Mask → Mask → WaitMode → Bool
test mask wait_mask any = any_of mask wait_mask
test mask wait_mask all = all_of mask wait_mask

-- `co_event_group_update`
unfoldable pub update : Group → Group
update g =
    if g.wait_ctx == null
    then g
    else if test g.mask g.wait_mask g.wait_mode
    then record g { pushed = g.wait_ctx ∷ g.pushed; wait_ctx = null }
    else g

-- `co_event_group_set`
unfoldable pub set : Group → Mask → Group
set g set_mask = update (record g { mask = either g.mask set_mask })

-- `co_event_group_get`
unfoldable pub get : Group → Mask → Mask
get g get_mask = both g.mask get_mask

-- `co_event_group_clear`, which returns the bits that were set.
unfoldable pub clear : Group → Mask → Group × Mask
clear g clear_mask =
    let current_mask = both g.mask clear_mask in
    (record g { mask = without g.mask current_mask }, current_mask)

-- `co_event_group_wait` while interrupts are disabled; the flag is `wait_done`.
unfoldable pub wait_begin : Group → ℕ → Mask → WaitMode → Outcome Fault (Group × Bool)
wait_begin g ctx wait_mask wait_mode =
    if g.wait_ctx != null
    then exit multiple_waits
    else ok (
      record g { wait_ctx = ctx; wait_mask = wait_mask; wait_mode = wait_mode },
      test g.mask wait_mask wait_mode,
    )

-- The rest of it, with interrupts.
unfoldable pub wait_end : Group → ℕ → Bool → Group
wait_end g ctx wait_done =
    if wait_done then record g { wait_ctx = null; pushed = ctx ∷ g.pushed } else g

-- `co_event_group_wait`, when no interrupt comes between the two.
unfoldable pub wait : Group → ℕ → Mask → WaitMode → Outcome Fault Group
wait g ctx wait_mask wait_mode = do
  (g', wait_done) ← wait_begin g ctx wait_mask wait_mode
  ok (wait_end g' ctx wait_done)
