-- ===== src/Com/Tests.antt =====
-- A round of lib/cpx/src/com.c: a packet of 5 bytes goes out, one of 3 bytes comes in.
use aideck_gap8_examples.Base.{
  ℕ, zero, suc, ◌+◌, ◌%◌, ◌≤◌, ◌<◌, ◌≡◌, refl, ◌⊎◌, true, false, List, ◌∷◌, ◌++◌, length, take,
  drop, replicate, bytes, some, ok, arith,
}
use aideck_gap8_examples.Com.{packet_length, Buffers, Call, Given, com_round, loaded}
use aideck_gap8_examples.Com.Round.{com_round_lem, calls_of, Turn}

abbrev outgoing : List ℕ
outgoing = 5 ∷ 0 ∷ replicate 1022 9

-- 3, 0, and then 2, 3, and so on.
abbrev clocked : ℕ → ℕ
clocked zero = 3
clocked (suc zero) = 0
clocked (suc (suc n)) = (n + 2) % 256

abbrev given : Given
given = record { waiting = true; woken_by_nina = false; received = some outgoing; miso = clocked }

abbrev buffers : Buffers
buffers = record { tx_buff = replicate 1024 0; rx_buff = replicate 1024 0 }

com_round_lem_example :
    (before : List Call) × ((Turn given 5 before false
        × (com_round given buffers
            ≡ ok (record { tx_buff = outgoing; rx_buff = replicate 1024 0 }, before)))
      ⊎ (Turn given 5 before true
          × (left : ℕ) × (rx : List ℕ) × (com_round given buffers
              ≡ ok (
                record { tx_buff = outgoing; rx_buff = rx },
                before ++ calls_of outgoing rx left 3,
              ))
          × (0 < left)
          × (left % 4 ≡ 0)
          × (4 + left ≤ 1024)
          × (7 ≤ 4 + left)
          × (5 ≤ 4 + left)
          × (take 4 outgoing ++ take left (drop 4 outgoing) ≡ take (4 + left) outgoing)
          × (take (4 + left) rx ≡ bytes clocked 0 (4 + left))
          × (length rx ≡ 1024)))
unfolding loaded packet_length
com_round_lem_example = com_round_lem given buffers refl refl (omega arith) (omega arith)
