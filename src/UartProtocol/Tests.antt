-- ===== src/UartProtocol/Tests.antt =====
-- Messages in short streams, for nanocockpit/lib/uart_protocol.c.
use aideck_gap8_examples.Base.{
  ℕ, zero, suc, ◌<◌, ◌≡◌, refl, Bool, true, ◌&&◌, List, [], ◌∷◌, ◌++◌, take, drop, replicate, ◌==◌,
  ok, exit, arith, dec_lt, ap, ◌∙◌, inr,
}
use aideck_gap8_examples.Crc32.{Statics, statics, crc_by_bit, shift_bits, shift_bit}
use aideck_gap8_examples.Streamer.Packet.{read32}
use aideck_gap8_examples.Crc32.Laws.{IsReady}
use aideck_gap8_examples.UartProtocol.{message, overrun, message_length, same_bytes, round}
use aideck_gap8_examples.UartProtocol.Scan.{First}
use aideck_gap8_examples.UartProtocol.Round.{verdict, round_lem, round-overrun}

-- No header stands before an offset.
unfoldable none_until : ℕ → List ℕ → Bool
none_until zero stream = true
none_until (suc i) stream = (message_length (take 4 (drop i stream)) == 0) && none_until i stream

none_until_lem :
    (d : ℕ) (stream : List ℕ)
    → none_until d stream ≡ true
    → (i : ℕ) → i < d
    → message_length (take 4 (drop i stream)) ≡ 0
unfolding none_until
none_until_lem zero stream e i h = absurd (omega arith)
none_until_lem (suc d) stream e i h = elim (dec_lt i d) [
  | yes k ↦ none_until_lem d stream (ground arith) i k
  | no k ↦
      let q : i ≡ d = omega arith in
      ap (λ t. message_length (take 4 (drop t stream))) q ∙ ground arith
]

-- Two bytes of noise, a message with its checksum, and one byte more.
abbrev numbers : List ℕ
numbers = 0x21 ∷ 0x52 ∷ 0x4E ∷ 0x47 ∷ 1 ∷ 2 ∷ 3 ∷ 4 ∷ []

abbrev stream : List ℕ
stream = 0 ∷ 0x21 ∷ (numbers ++ 171 ∷ 142 ∷ 77 ∷ 172 ∷ 9 ∷ [])

stream-First : First stream 2 4
unfolding none_until message_length same_bytes
stream-First = record {
  none_before = none_until_lem 2 stream refl;
  found = refl;
  some_bytes = omega arith;
}

-- The message is handed on.
accepted : verdict numbers 0xAC4D8EAB ≡ message numbers
unfolding crc_by_bit shift_bits shift_bit
accepted = refl

round_lem_example :
    (s' : Statics) × (round 125 statics stream
      ≡ ok (s', verdict numbers (read32 (171 ∷ 142 ∷ 77 ∷ 172 ∷ []) 0), 9 ∷ []))
    × IsReady s'
round_lem_example =
    round_lem statics stream 2 4 (inr (refl, refl)) (omega arith) stream-First (omega arith)
      (omega arith)

-- The same message behind 49 bytes of noise.
abbrev late : List ℕ
late = replicate 49 0 ++ drop 2 stream

late-First : First late 49 4
unfolding none_until message_length same_bytes
late-First = record {
  none_before = none_until_lem 49 late refl;
  found = refl;
  some_bytes = omega arith;
}

round-overrun_example : round 125 statics late ≡ exit overrun
round-overrun_example =
    round-overrun statics late 49 4 late-First (omega arith) (omega arith) (omega arith)
