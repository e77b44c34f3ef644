-- ===== src/Com/Round.antt =====
-- The lengths of the transfers in `com_task` of lib/cpx/src/com.c, and what a round moves.
use aideck_gap8_examples.Base.{
  take-then-take, ℕ, Bool-cases, ◌+◌, ◌*◌, ◌%◌, ◌≤◌, ◌<◌, ◌≡◌, refl, zero, suc, sym, ap, subst, ◌∙◌,
  ◌⊎◌, inl, inr, true, false, Bool, ◌||◌, List, [], ◌∷◌, ◌++◌, length, take, drop, bytes, write,
  length-bytes, bytes-append, take-write, length-write, ltb, if◌then◌else◌, ok, arith,
}
use aideck_gap8_examples.Com.{
  mtu, packet_size, packet_length, size_left, Call, wait_any, wait_nina, transfer, set_gap8_rtt,
  queue_rx, Buffers, Given, transfers, com_round, nina_rtt, loaded, notify,
}

-- The second transfer is not empty, is a whole number of words, covers both packets with their
-- lengths, and adds at most 3 bytes to the longer one, or sends 4 where both fit the first.
pub size_left_lem :
    (tx_len rx_len : ℕ)
    → (0 < size_left tx_len rx_len)
      × (size_left tx_len rx_len % 4 ≡ 0)
      × (2 + tx_len ≤ 4 + size_left tx_len rx_len)
      × (2 + rx_len ≤ 4 + size_left tx_len rx_len)
      × (tx_len ≤ mtu → rx_len ≤ mtu → 4 + size_left tx_len rx_len ≤ packet_size)
unfolding size_left
size_left_lem tx_len rx_len =
    (ground arith, ground arith, ground arith, ground arith, λ h k. ground arith)

-- The length that the ESP32 announces.
abbrev pub announced : (ℕ → ℕ) → ℕ
announced miso = miso 0 + miso 1 * 256

-- The receive buffer after both transfers.
abbrev pub rx_after : List ℕ → (ℕ → ℕ) → ℕ → List ℕ
rx_after rx miso left = write (write rx 0 (bytes miso 0 4)) 4 (bytes miso 4 left)

take-rx_after :
    (rx : List ℕ) (miso : ℕ → ℕ) (left : ℕ)
    → 4 + left ≤ length rx
    → take (4 + left) (rx_after rx miso left) ≡ bytes miso 0 (4 + left)
take-rx_after rx miso left h =
    ap (λ n. take (4 + n) (rx_after rx miso left)) (sym (length-bytes miso 4 left))
    ∙ take-write (write rx 0 (bytes miso 0 4)) 4 (bytes miso 4 left)
        (omega (arith, length-write rx 0 (bytes miso 0 4)))
    ∙ sym (bytes-append miso 0 4 left)

length-rx_after :
    (rx : List ℕ) (miso : ℕ → ℕ) (left : ℕ)
    → 4 + left ≤ length rx
    → length (rx_after rx miso left) ≡ length rx
length-rx_after rx miso left h =
    length-write (write rx 0 (bytes miso 0 4)) 4 (bytes miso 4 left)
      (omega (arith, length-write rx 0 (bytes miso 0 4), length-bytes miso 4 left))
    ∙ length-write rx 0 (bytes miso 0 4) (omega arith)

-- What the two transfers of a round send, and what they leave behind.
abbrev pub calls_of : List ℕ → List ℕ → ℕ → ℕ → List Call
calls_of tx rx left rx_len =
    transfer (take 4 tx) true
    ∷ set_gap8_rtt false
    ∷ transfer (take left (drop 4 tx)) false
    ∷ (if ltb 0 rx_len then queue_rx rx ∷ [] else [])

transfers_lem :
    (miso : ℕ → ℕ) (b : Buffers)
    → let left = size_left (packet_length b.tx_buff) (announced miso) in
      packet_length b.tx_buff ≤ mtu
      → announced miso ≤ mtu
      → transfers miso b
        ≡ ok (
          record b { rx_buff = rx_after b.rx_buff miso left },
          calls_of b.tx_buff (rx_after b.rx_buff miso left) left (announced miso),
        )
unfolding transfers packet_length
transfers_lem miso b h k = ground (arith, size_left_lem (packet_length b.tx_buff) (announced miso))

com_round-idle :
    (i : Given) (b : Buffers)
    → let tx = loaded i.received in
      let before =
        (if i.waiting then [] else wait_any ∷ []) ++ notify (nina_rtt i) (packet_length tx) in
      (nina_rtt i || ltb 0 (packet_length tx)) ≡ false
      → com_round i b ≡ ok (record b { tx_buff = tx }, before)
unfolding com_round
com_round-idle i b e = rw e

com_round-go :
    (i : Given) (b b' : Buffers) (calls : List Call)
    → let tx = loaded i.received in
      let before =
        (if i.waiting then [] else wait_any ∷ []) ++ notify (nina_rtt i) (packet_length tx) in
      (nina_rtt i || ltb 0 (packet_length tx)) ≡ true
      → transfers i.miso (record b { tx_buff = tx }) ≡ ok (b', calls)
      → com_round i b ≡ ok (b', before ++ calls)
unfolding com_round
com_round-go i b b' calls e f = rw (e, f)

-- The ESP32 asked for a transfer: `com_task` had no packet to send when it looked, so that it waited,
-- and the bits that woke it have NINA_RTT_BIT.
abbrev pub Asked : Given → Type 0
Asked i = (i.waiting ≡ false) × (i.woken_by_nina ≡ true)

-- What a round does before its transfers, by whether the ESP32 asked and the length of the packet to
-- send, and whether there are transfers.
pub data Turn (i : Given) (tx_len : ℕ) : List Call → Bool → Type 0 where
  spurious : ¬ Asked i → tx_len ≡ 0 → Turn i tx_len [] false
  asked : Asked i → tx_len ≡ 0 → Turn i tx_len [] true
  asked_and_sends : Asked i → 0 < tx_len → Turn i tx_len (set_gap8_rtt true ∷ []) true
  asks : ¬ Asked i → 0 < tx_len → Turn i tx_len (set_gap8_rtt true ∷ wait_nina ∷ []) true

nina_rtt-Asked : (i : Given) → nina_rtt i ≡ true → Asked i
unfolding nina_rtt
nina_rtt-Asked i e = (ground (arith, e), ground (arith, e))

not-Asked : (i : Given) → nina_rtt i ≡ false → ¬ Asked i
unfolding nina_rtt
not-Asked i e (w, v) = ground (arith, e, w, v)

ltb-suc : (n : ℕ) → ltb 0 (suc n) ≡ true
ltb-suc n = ground arith

notify-Turn :
    (i : Given) (tx_len : ℕ)
    → Turn i tx_len (notify (nina_rtt i) tx_len) (nina_rtt i || ltb 0 tx_len)
unfolding notify
notify-Turn i zero = elim (Bool-cases (nina_rtt i)) [
  | inl e ↦ rw e (asked (nina_rtt-Asked i e) refl)
  | inr e ↦ rw e (spurious (not-Asked i e) refl)
]
notify-Turn i (suc n) = elim (Bool-cases (nina_rtt i)) [
  | inl e ↦ rw (e, ltb-suc n) (asked_and_sends (nina_rtt-Asked i e) (omega arith))
  | inr e ↦ rw (e, ltb-suc n) (asks (not-Asked i e) (omega arith))
]

-- One round of `com_task`, when the packet to send and the one that the ESP32 announces are at
-- most 1022 bytes long. It waits first unless a packet is there. With nothing to send and no request of
-- the ESP32, no transfer is started. With a packet to send, the pin of GAP8 is raised and, unless the
-- ESP32 asked already, its pin is waited for. Unless there is neither, two transfers follow, the
-- second with `left` bytes, and the pin is lowered between them. `left` is a positive multiple
-- of 4, both transfers lie within the buffers and cover both packets with their lengths, what is
-- sent is the packet from `txq`, or zeros, and the first bytes of the receive buffer are all that
-- the ESP32 sent; the buffer is queued exactly when the announced length is not 0.
pub com_round_lem :
    (i : Given) (b : Buffers)
    → let tx = loaded i.received in
      length tx ≡ packet_size
      → length b.rx_buff ≡ packet_size
      → packet_length tx ≤ mtu
      → announced i.miso ≤ mtu
      → (before : List Call) × ((Turn i (packet_length tx) before false
            × (com_round i b
                ≡ ok (
                  record b { tx_buff = tx },
                  (if i.waiting then [] else wait_any ∷ []) ++ before,
                )))
          ⊎ (Turn i (packet_length tx) before true
              × (left : ℕ) × (rx : List ℕ) × (com_round i b
                  ≡ ok (
                    record { tx_buff = tx; rx_buff = rx },
                    ((if i.waiting then [] else wait_any ∷ []) ++ before)
                        ++ calls_of tx rx left (announced i.miso),
                  ))
              × (0 < left)
              × (left % 4 ≡ 0)
              × (4 + left ≤ packet_size)
              × (2 + packet_length tx ≤ 4 + left)
              × (2 + announced i.miso ≤ 4 + left)
              × (take 4 tx ++ take left (drop 4 tx) ≡ take (4 + left) tx)
              × (take (4 + left) rx ≡ bytes i.miso 0 (4 + left))
              × (length rx ≡ packet_size)))
com_round_lem i b l r h k =
    let tx = loaded i.received in
    let before = notify (nina_rtt i) (packet_length tx) in
    let turn = notify-Turn i (packet_length tx) in
    let left = size_left (packet_length tx) (announced i.miso) in
    let z = size_left_lem (packet_length tx) (announced i.miso) in
    let fits : 4 + left ≤ packet_size = z.4 h k in
    let rx = rx_after b.rx_buff i.miso left in
    elim (Bool-cases (nina_rtt i || ltb 0 (packet_length tx))) [
      | inl e ↦ (
        before,
        inr (
          subst (Turn i (packet_length tx) before) e turn,
          left,
          rx,
          com_round-go i b (record { tx_buff = tx; rx_buff = rx })
              (calls_of tx rx left (announced i.miso)) e
              (transfers_lem i.miso (record b { tx_buff = tx }) h k),
          z.0,
          z.1,
          fits,
          z.2,
          z.3,
          take-then-take tx 4 left,
          take-rx_after b.rx_buff i.miso left (omega (arith, r, fits)),
          length-rx_after b.rx_buff i.miso left (omega (arith, r, fits)) ∙ r,
        ),
      )
      | inr e ↦
          (before, inl (subst (Turn i (packet_length tx) before) e turn, com_round-idle i b e))
    ]
