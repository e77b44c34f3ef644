-- ===== src/Com.antt =====
-- lib/cpx/src/com.c with lib/cpx/inc/com.h: packets between the GAP8 and the ESP32 over SPI, one
-- round of the loop of `com_task`. What FreeRTOS and the SPI peripheral do is not modelled: a
-- round is given what their calls delivered, and returns the calls it makes in order.
pub mod Round
mod Tests
use aideck_gap8_examples.Base.{
  ℕ, ◌+◌, ◌-◌, ◌*◌, ◌%◌, max, Bool, true, false, ◌||◌, Option, none, some, List, [], ◌∷◌, ◌++◌,
  get_or, take, drop, replicate, bytes, write, ltb, ◌==◌, if◌then◌else◌, Outcome, ok, exit, ◌>>=◌,
}

abbrev pub mtu : ℕ
mtu = 1022

-- `sizeof(packet_t)`; a `packet_t` is the list of its bytes.
abbrev pub packet_size : ℕ
packet_size = 2 + mtu

abbrev pub initial_transfer_size : ℕ
initial_transfer_size = 4

-- The field `len`.
unfoldable pub packet_length : List ℕ → ℕ
packet_length packet = get_or packet 0 0 + get_or packet 1 0 * 256

-- The transfer would go beyond `tx_buff` and `rx_buff`, which C leaves undefined.
pub data Fault : Type 0 where
  overrun : Fault

-- `sizeLeft`, as it is given to the second transfer; the signed intermediate values that are
-- negative are 0 here, as they are after the second `max`.
unfoldable pub size_left : ℕ → ℕ → ℕ
size_left tx_len rx_len =
    let longest = max (tx_len + 2 - initial_transfer_size) (rx_len + 2 - initial_transfer_size) in
    let padded = (if ltb 0 (longest % 4) then longest + (4 - longest % 4) else longest) in
    if padded == 0 then 4 else padded

-- The calls that others can see: `transfer` has the bytes that are sent and whether the chip
-- stays selected.
pub data Call : Type 0 where
  wait_any wait_nina : Call
  set_gap8_rtt : Bool → Call
  transfer : List ℕ → Bool → Call
  queue_rx : List ℕ → Call

-- The static buffers.
pub record Buffers : Type 0 where
  pub tx_buff : List ℕ
  pub rx_buff : List ℕ

-- What the calls of one round deliver: whether `uxQueueMessagesWaiting(txq)` is not 0 at the top,
-- whether the bits that the wait returned have NINA_RTT_BIT, the packet taken from `txq`, if
-- there is one then, and the bytes that the ESP32 clocks out.
pub record Given : Type 0 where
  pub waiting : Bool
  pub woken_by_nina : Bool
  pub received : Option (List ℕ)
  pub miso : ℕ → ℕ

-- The two transfers of a round, from `pi_spi_transfer` to `xQueueSend`.
unfoldable pub transfers : (ℕ → ℕ) → Buffers → Outcome Fault (Buffers × List Call)
transfers miso b =
    let rx₁ = write b.rx_buff 0 (bytes miso 0 initial_transfer_size) in
    let left = size_left (packet_length b.tx_buff) (packet_length rx₁) in
    let rx₂ = write rx₁ initial_transfer_size (bytes miso initial_transfer_size left) in
    if ltb packet_size (initial_transfer_size + left)
    then exit overrun
    else ok (
      record b { rx_buff = rx₂ },
      transfer (take initial_transfer_size b.tx_buff) true
          ∷ set_gap8_rtt false
          ∷ transfer (take left (drop initial_transfer_size b.tx_buff)) false
          ∷ (if ltb 0 (packet_length rx₂) then queue_rx rx₂ ∷ [] else []),
    )

-- `evBits & NINA_RTT_BIT`
unfoldable pub nina_rtt : Given → Bool
nina_rtt i = if i.waiting then false else i.woken_by_nina

-- `tx_buff` after the queue was asked.
unfoldable pub loaded : Option (List ℕ) → List ℕ
loaded none = replicate packet_size 0
loaded (some packet) = packet

-- Tell the ESP32 that there is a packet, and wait for it unless it has asked already.
unfoldable pub notify : Bool → ℕ → List Call
notify nina tx_len =
    if ltb 0 tx_len then set_gap8_rtt true ∷ (if nina then [] else wait_nina ∷ []) else []

-- One round of the loop of `com_task`.
unfoldable pub com_round : Given → Buffers → Outcome Fault (Buffers × List Call)
com_round i b =
    let tx = loaded i.received in
    let before =
      (if i.waiting then [] else wait_any ∷ []) ++ notify (nina_rtt i) (packet_length tx) in
    if nina_rtt i || ltb 0 (packet_length tx)
    then (do (b', calls) ← transfers i.miso (record b { tx_buff = tx }); ok (b', before ++ calls))
    else ok (record b { tx_buff = tx }, before)
