-- ===== src/UartProtocol/Scan.antt =====
-- The inner loop of nanocockpit/lib/uart_protocol.c finds the first header.
use aideck_gap8_examples.Base.{
  ℕ, zero, suc, ◌+◌, ◌-◌, ◌%◌, ◌≤◌, ◌<◌, ◌≡◌, refl, ap, ◌∙◌, List, [], ◌∷◌, length, length-take,
  length-drop, take, drop, take-then-take, drop-then-drop, ok, arith, dec_lt,
}
use aideck_gap8_examples.UartProtocol.{Reader, message_length, read, discard, header_at, scan}

take-of_take : (xs : List ℕ) (a b : ℕ) → a ≤ b → take a (take b xs) ≡ take a xs
take-of_take xs zero b h = refl
take-of_take [] (suc a) zero h = absurd (omega arith)
take-of_take [] (suc a) (suc b) h = refl
take-of_take (x ∷ xs) (suc a) zero h = absurd (omega arith)
take-of_take (x ∷ xs) (suc a) (suc b) h = ap (◌∷◌ x) (take-of_take xs a b (omega arith))

-- A part of what has been read is that part of the stream.
pub part-of_take :
    (xs : List ℕ) (i n k : ℕ) → i + n ≤ k → take n (drop i (take k xs)) ≡ take n (drop i xs)
part-of_take xs zero n k h = take-of_take xs n k (omega arith)
part-of_take [] (suc i) n zero h = refl
part-of_take [] (suc i) n (suc k) h = refl
part-of_take (x ∷ xs) (suc i) n zero h = absurd (omega arith)
part-of_take (x ∷ xs) (suc i) n (suc k) h = part-of_take xs i n k (omega arith)

-- The reader after `k` bytes of a stream.
abbrev pub after_bytes : List ℕ → ℕ → ℕ → Reader
after_bytes stream i k = record { available = take k stream; discarded = i; coming = drop k stream }

pub header_at-after_bytes :
    (stream : List ℕ) (i k : ℕ)
    → i + 4 ≤ k
    → header_at (after_bytes stream i k) ≡ take 4 (drop i stream)
unfolding header_at
header_at-after_bytes stream i k h = part-of_take stream i 4 k h

pub read-after_bytes :
    (stream : List ℕ) (i k n : ℕ)
    → k + n ≤ 128
    → k + n ≤ length stream
    → read n (after_bytes stream i k) ≡ ok (after_bytes stream i (k + n))
unfolding read
read-after_bytes stream i k n h w =
    let a = length-take k stream in
    let b = length-drop k stream in
    ground (arith, a, b, take-then-take stream k n, drop-then-drop stream k n)

-- One byte more is discarded.
discard-after_bytes :
    (stream : List ℕ) (i k : ℕ)
    → i + 4 ≤ k
    → k ≤ i + 7
    → k % 4 ≡ 0
    → i + 5 ≤ 128
    → i + 8 ≤ length stream
    → (k' : ℕ) × (discard (after_bytes stream i k) ≡ ok (after_bytes stream (i + 1) k'))
      × (i + 1 + 4 ≤ k')
      × (k' ≤ i + 1 + 7)
      × (k' % 4 ≡ 0)
unfolding discard
discard-after_bytes stream i k lower upper whole fits more = elim (dec_lt k (i + 5)) [
  | yes h ↦ (
    k + 4,
    ground (
      arith,
      read-after_bytes stream (i + 1) k 4 (omega arith) (omega arith),
      length-take k stream,
    ),
    omega arith,
    omega arith,
    omega arith,
  )
  | no h ↦ (k, ground (arith, length-take k stream), omega arith, omega arith, omega arith)
]

-- What `scan` finds: no header before `d`, and one for a message of `n` bytes there.
pub record First (stream : List ℕ) (d n : ℕ) : Type 0 where
  pub none_before : (i : ℕ) → i < d → message_length (take 4 (drop i stream)) ≡ 0
  pub found : message_length (take 4 (drop d stream)) ≡ n
  pub some_bytes : 4 ≤ n

scan-next :
    (fuel : ℕ) (r u : Reader)
    → message_length (header_at r) ≡ 0
    → r.discarded + 5 ≤ 128
    → discard r ≡ ok u
    → scan (suc fuel) r ≡ scan fuel u
unfolding scan
scan-next fuel r u none fits e = ground (arith, none, e)

scan-found :
    (fuel n : ℕ) (r : Reader)
    → message_length (header_at r) ≡ n
    → 4 ≤ n
    → scan (suc fuel) r ≡ ok (n, r)
unfolding scan
scan-found fuel n r e some_bytes = ground (arith, e)

-- The loop stops at the first header and has read at most 3 bytes behind it.
pub scan_lem :
    (fuel : ℕ) (stream : List ℕ) (d n i k : ℕ)
    → First stream d n
    → i ≤ d
    → d - i < fuel
    → d + 4 ≤ 128
    → d + 8 ≤ length stream
    → i + 4 ≤ k
    → k ≤ i + 7
    → k % 4 ≡ 0
    → (k' : ℕ) × (scan fuel (after_bytes stream i k) ≡ ok (n, after_bytes stream d k'))
      × (d + 4 ≤ k')
      × (k' ≤ d + 7)
scan_lem zero stream d n i k f h enough fits more lower upper whole = absurd (omega arith)
scan_lem (suc fuel) stream d n i k f h enough fits more lower upper whole = elim (dec_lt i d) [
  | yes before ↦
      let (u, e, a, b, c) =
        discard-after_bytes stream i k lower upper whole (omega arith) (omega arith) in
      let (k', q, a', b') =
        scan_lem fuel stream d n (i + 1) u f (omega arith) (omega arith) fits more a b c in
      (
        k',
        scan-next fuel (after_bytes stream i k) (after_bytes stream (i + 1) u)
              (ap message_length (header_at-after_bytes stream i k lower) ∙ f.none_before i before)
              (omega arith) e
            ∙ q,
        a',
        b',
      )
  | no at ↦
      let e : i ≡ d = omega arith in
      (
        k,
        ap (λ i. scan (suc fuel) (after_bytes stream i k)) e
            ∙ scan-found fuel n (after_bytes stream d k)
                (ap message_length (header_at-after_bytes stream d k (omega arith)) ∙ f.found)
                f.some_bytes,
        omega arith,
        omega arith,
      )
]
