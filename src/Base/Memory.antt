-- ===== src/Base/Memory.antt =====
-- Bytes of memory, and a `memcpy` behind the bytes that are there already.
use Prim.Native.Nat.{ℕ, zero, suc, ◌+◌, ◌≤◌}
use mathlib.Core.Path.{◌≡◌, refl, sym, ap, ap₂, ◌∙◌}
use mathlib.Core.List.{List, [], ◌∷◌, ◌++◌}
use native.Mathlib.Omega.{arith}
use aideck_gap8_examples.Base.Lists.{
  length, take, drop, length-append, length-take, length-drop, take-append_left, take-append_self,
}

-- The bytes at an address.
abbrev pub bytes : (ℕ → ℕ) → ℕ → ℕ → List ℕ
bytes memory at zero = []
bytes memory at (suc n) = memory at ∷ bytes memory (at + 1) n

-- `memcpy` into a buffer, at an offset.
abbrev pub write : List ℕ → ℕ → List ℕ → List ℕ
write storage offset segment =
    take offset storage ++ (segment ++ drop (offset + length segment) storage)

pub length-bytes : (memory : ℕ → ℕ) (at n : ℕ) → length (bytes memory at n) ≡ n
length-bytes memory at zero = refl
length-bytes memory at (suc n) = ap suc (length-bytes memory (at + 1) n)

pub bytes-append :
    (memory : ℕ → ℕ) (at r k : ℕ)
    → bytes memory at (r + k) ≡ bytes memory at r ++ bytes memory (at + r) k
bytes-append memory at zero k = ap₂ (bytes memory) (omega arith) (omega arith)
bytes-append memory at (suc r) k =
    let e : suc r + k ≡ suc (r + k) = omega arith in
    rw e (
      ap (◌∷◌ (memory at)) (
        bytes-append memory (at + 1) r k
        ∙ ap (λ t. bytes memory (at + 1) r ++ bytes memory t k) (omega arith)))

length-prefix : (storage : List ℕ) (r : ℕ) → r ≤ length storage → length (take r storage) ≡ r
length-prefix storage r h = omega (arith, length-take r storage)

-- After a copy behind the first `r` bytes, the first bytes are those and the copied ones.
pub take-write :
    (storage : List ℕ) (r : ℕ) (segment : List ℕ)
    → r ≤ length storage
    → take (r + length segment) (write storage r segment) ≡ take r storage ++ segment
take-write storage r segment h =
    ap (λ t. take (t + length segment) (write storage r segment)) (sym (length-prefix storage r h))
    ∙ take-append_left (take r storage) (segment ++ drop (r + length segment) storage)
        (length segment)
    ∙ ap (◌++◌ (take r storage)) (take-append_self segment (drop (r + length segment) storage))

-- A copy that fits leaves the storage as long as it was.
pub length-write :
    (storage : List ℕ) (r : ℕ) (segment : List ℕ)
    → r + length segment ≤ length storage
    → length (write storage r segment) ≡ length storage
length-write storage r segment h = omega (
  arith,
  length-append (take r storage) (segment ++ drop (r + length segment) storage),
  length-append segment (drop (r + length segment) storage),
  length-drop (r + length segment) storage,
  length-prefix storage r (omega arith),
)
