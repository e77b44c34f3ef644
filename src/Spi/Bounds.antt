-- ===== src/Spi/Bounds.antt =====
-- Send requests as nanocockpit/lib/cpx/cpx_spi.c builds them, and the lengths that fit a packet.
use aideck_gap8_examples.Base.{ℕ, ◌+◌, ◌%◌, ◌≤◌, ◌<◌, ◌≡◌, ◌⊎◌, ok, exit, arith}
use aideck_gap8_examples.Spi.{
  SendReq, mtu, set_head, set_tail, send_req_init, max_tail_length, packet_too_long,
}

-- What holds of every request that the setters accept.
pub record IsValid (s : SendReq) : Type 0 where
  pub head_aligned : s.payload_head % 4 ≡ 0
  pub tail_aligned : s.payload_tail % 4 ≡ 0
  pub head_words : s.head_length % 4 ≡ 0
  pub tail_words : s.tail_length % 4 ≡ 0
  pub whole : s.header_length ≡ s.head_length + s.tail_length
  pub fits : s.header_length ≤ mtu

-- A request that `cpx_spi_send_req_init` accepts is well formed.
pub send_req_init-IsValid :
    (header_at payload_head head_length payload_tail tail_length : ℕ) {s : SendReq}
    → send_req_init header_at payload_head head_length payload_tail tail_length ≡ ok s
    → IsValid s
unfolding send_req_init
send_req_init-IsValid header_at payload_head head_length payload_tail tail_length e = ground arith

-- So it stays under `cpx_spi_send_set_head` and `cpx_spi_send_set_tail`.
pub set_head-IsValid :
    (s : SendReq) (p n : ℕ) {t : SendReq} → IsValid s → set_head s p n ≡ ok t → IsValid t
unfolding set_head
set_head-IsValid s p n v e = ground arith

pub set_tail-IsValid :
    (s : SendReq) (p n : ℕ) {t : SendReq} → IsValid s → set_tail s p n ≡ ok t → IsValid t
unfolding set_tail
set_tail-IsValid s p n v e = ground arith

-- `cpx_spi_send_max_tail_length` is the greatest length that `cpx_spi_send_set_tail` accepts: for
-- an aligned tail whose length is a multiple of 4, either the length is at most that bound, and
-- then the request gets the tail and the length of both parts, or it is greater, and then the
-- assertion on the packet's length fails. The bound is a multiple of 4.
pub set_tail-max_tail_length :
    (s : SendReq) (p n : ℕ)
    → IsValid s
    → p % 4 ≡ 0
    → n % 4 ≡ 0
    → (max_tail_length s % 4 ≡ 0)
      × (((n ≤ max_tail_length s)
            × (set_tail s p n
                ≡ ok (record s {
                  header_length = s.head_length + n;
                  payload_tail = p;
                  tail_length = n;
                })))
          ⊎ ((max_tail_length s < n) × (set_tail s p n ≡ exit packet_too_long)))
unfolding set_tail max_tail_length
set_tail-max_tail_length s p n v a w = ground arith
