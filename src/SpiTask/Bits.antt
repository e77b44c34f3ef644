-- ===== src/SpiTask/Bits.antt =====
-- The event bits of `cpx_spi_task` of nanocockpit/lib/cpx/cpx_spi.c under the operations of
-- event_group.h: a bit follows its own operations, and no others.
use aideck_gap8_examples.Base.{◌≡◌, refl, true, false, [], ◌∷◌, arith}
use aideck_gap8_examples.EventGroup.{Mask, both, either, without, any_of, none_set, all_of}

pub any_of-nil : (m : Mask) → any_of m [] ≡ false
unfolding any_of
any_of-nil [] = refl
any_of-nil (b ∷ m) = refl

pub any_of-either_same : (m c : Mask) → any_of c c ≡ true → any_of (either m c) c ≡ true
unfolding any_of either
any_of-either_same [] c h = h
any_of-either_same (b ∷ m) [] h = h
any_of-either_same (b ∷ m) (d ∷ c) h = ground (arith, any_of-either_same m c)

pub any_of-either_other : (m c w : Mask) → any_of c w ≡ false → any_of (either m c) w ≡ any_of m w
unfolding any_of either
any_of-either_other [] c w h = h
any_of-either_other (b ∷ m) [] w h = refl
any_of-either_other (b ∷ m) (d ∷ c) [] h = refl
any_of-either_other (b ∷ m) (d ∷ c) (a ∷ w) h = ground (arith, any_of-either_other m c w)

pub any_of-without_same : (m c : Mask) → any_of (without m (both m c)) c ≡ false
unfolding any_of without both
any_of-without_same [] c = refl
any_of-without_same (b ∷ m) [] = refl
any_of-without_same (b ∷ m) (d ∷ c) = ground (arith, any_of-without_same m c)

pub any_of-without_other :
    (m c w : Mask) → any_of c w ≡ false → any_of (without m (both m c)) w ≡ any_of m w
unfolding any_of without both
any_of-without_other [] c w h = refl
any_of-without_other (b ∷ m) [] w h = refl
any_of-without_other (b ∷ m) (d ∷ c) [] h = refl
any_of-without_other (b ∷ m) (d ∷ c) (a ∷ w) h = ground (arith, any_of-without_other m c w)

any_of-none_set : (m w : Mask) → none_set w ≡ true → any_of m w ≡ false
unfolding any_of none_set
any_of-none_set [] w h = refl
any_of-none_set (b ∷ m) [] h = refl
any_of-none_set (b ∷ m) (a ∷ w) h = ground (arith, any_of-none_set m w)

pub any_of-both : (m c w : Mask) → all_of c w ≡ true → any_of (both m c) w ≡ any_of m w
unfolding any_of both all_of none_set
any_of-both [] c w h = refl
any_of-both (b ∷ m) [] [] h = refl
any_of-both (b ∷ m) [] (a ∷ w) h = ground (arith, any_of-none_set m w)
any_of-both (b ∷ m) (d ∷ c) [] h = refl
any_of-both (b ∷ m) (d ∷ c) (a ∷ w) h = ground (arith, any_of-both m c w)

pub any_of-all_of : (m w : Mask) → all_of m w ≡ true → none_set w ≡ false → any_of m w ≡ true
unfolding any_of all_of none_set
any_of-all_of [] w h k = ground arith
any_of-all_of (b ∷ m) [] h k = ground arith
any_of-all_of (b ∷ m) (a ∷ w) h k = ground (arith, any_of-all_of m w)
