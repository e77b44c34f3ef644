-- ===== src/Crc32/Laws.antt =====
-- The table gives what the bitwise computation gives, for every message.
use Prim.Native.Nat.{bit_xor}
use native.Mathlib.Nat.{pow-suc}
use aideck_gap8_examples.Base.{
  ℕ, zero, suc, ◌+◌, ◌*◌, ◌/◌, ◌%◌, ◌^◌, ◌≤◌, ◌<◌, ◌≡◌, ◌⊎◌, refl, sym, ap, ap₂, ◌∙◌, List, [], ◌∷◌,
  ◌++◌, length, get_or, set, get_or-set_self, get_or-set_ne, length-set, ℕ_discrete, inl, inr, true,
  false, subst, if◌then◌else◌, arith,
}
use aideck_gap8_examples.Bits.{
  xor_half, xor_parity, xor_comm, xor_assoc, xor_self, xor-zero, zero-xor,
}
use aideck_gap8_examples.Crc32.{
  polynomial, shift_bit, shift_bits, crc_by_bit, crc_by_byte, fill_table, table_init, Statics,
  context_init, update, calculate_buffer, initial_remainder, final_xor_value,
}

shift_bit-even : (a : ℕ) → a % 2 ≡ 0 → shift_bit a ≡ a / 2
unfolding shift_bit
shift_bit-even a h = ground arith

shift_bit-odd : (a : ℕ) → a % 2 ≡ 1 → shift_bit a ≡ bit_xor (a / 2) polynomial
unfolding shift_bit
shift_bit-odd a h = ground arith

xor_cancel : (x y p : ℕ) → bit_xor (bit_xor x p) (bit_xor y p) ≡ bit_xor x y
xor_cancel x y p =
    xor_assoc x p (bit_xor y p)
    ∙ ap (bit_xor x)
        (xor_comm p (bit_xor y p) ∙ xor_assoc y p p ∙ ap (bit_xor y) (xor_self p) ∙ xor-zero y)

xor_swap : (x y p : ℕ) → bit_xor (bit_xor x p) y ≡ bit_xor (bit_xor x y) p
xor_swap x y p = xor_assoc x p y ∙ ap (bit_xor x) (xor_comm p y) ∙ sym (xor_assoc x y p)

-- The round is linear.
shift_bit-xor : (a b : ℕ) → shift_bit (bit_xor a b) ≡ bit_xor (shift_bit a) (shift_bit b)
shift_bit-xor a b = ground (
  arith,
  shift_bit-even a,
  shift_bit-odd a,
  shift_bit-even b,
  shift_bit-odd b,
  shift_bit-even (bit_xor a b),
  shift_bit-odd (bit_xor a b),
  xor_half a b,
  xor_parity a b,
  xor_assoc (a / 2) (b / 2) polynomial,
  xor_swap (a / 2) (b / 2) polynomial,
  xor_cancel (a / 2) (b / 2) polynomial,
)

shift_bits-xor :
    (k a b : ℕ) → shift_bits k (bit_xor a b) ≡ bit_xor (shift_bits k a) (shift_bits k b)
unfolding shift_bits
shift_bits-xor zero a b = refl
shift_bits-xor (suc k) a b =
    ap (shift_bits k) (shift_bit-xor a b) ∙ shift_bits-xor k (shift_bit a) (shift_bit b)

-- Only the lowest digit brings in the polynomial.
shift_bit_low : (x : ℕ) → shift_bit x ≡ bit_xor (shift_bit (x % 2)) (x / 2)
shift_bit_low x = ground (
  arith,
  shift_bit-even x,
  shift_bit-odd x,
  shift_bit-even (x % 2),
  shift_bit-odd (x % 2),
  zero-xor (x / 2),
  zero-xor polynomial,
  xor_comm polynomial (x / 2),
)

mul-pow-suc : (h k : ℕ) → h * 2 ^ suc k ≡ 2 * (h * 2 ^ k)
mul-pow-suc h k = omega (arith, ap (λ (t : ℕ). h * t) (pow-suc 2 k))

-- Digits above the lowest `k` only move down in `k` rounds.
shift_bits_high :
    (k h l : ℕ) → l < 2 ^ k → shift_bits k (h * 2 ^ k + l) ≡ bit_xor (shift_bits k l) h
unfolding shift_bits
shift_bits_high zero h l fits = ground (arith, zero-xor h)
shift_bits_high (suc k) h l fits =
    ap (shift_bits k)
      (shift_bit_low (h * 2 ^ suc k + l) ∙ ap₂ (λ p x. bit_xor (shift_bit p) x) parity half)
    ∙ shift_bits-xor k (shift_bit (l % 2)) (h * 2 ^ k + l / 2)
    ∙ ap (bit_xor (shift_bits k (shift_bit (l % 2)))) (shift_bits_high k h (l / 2) low)
    ∙ sym (xor_assoc (shift_bits k (shift_bit (l % 2))) (shift_bits k (l / 2)) h)
    ∙ ap (λ t. bit_xor t h)
        (sym (shift_bits-xor k (shift_bit (l % 2)) (l / 2))
          ∙ ap (shift_bits k) (sym (shift_bit_low l)))
  where
    parity : (h * 2 ^ suc k + l) % 2 ≡ l % 2
    parity = omega (arith, mul-pow-suc h k)

    half : (h * 2 ^ suc k + l) / 2 ≡ h * 2 ^ k + l / 2
    half = omega (arith, mul-pow-suc h k)

    low : l / 2 < 2 ^ k
    low = omega (arith, pow-suc 2 k)

-- A byte does not touch the digits above it.
xor_byte_high : (a b : ℕ) → b < 256 → bit_xor a b / 256 ≡ a / 256
xor_byte_high a b small = omega (
  arith,
  xor_half a b,
  xor_half (a / 2) (b / 2),
  xor_half (a / 2 / 2) (b / 2 / 2),
  xor_half (a / 2 / 2 / 2) (b / 2 / 2 / 2),
  xor_half (a / 2 / 2 / 2 / 2) (b / 2 / 2 / 2 / 2),
  xor_half (a / 2 / 2 / 2 / 2 / 2) (b / 2 / 2 / 2 / 2 / 2),
  xor_half (a / 2 / 2 / 2 / 2 / 2 / 2) (b / 2 / 2 / 2 / 2 / 2 / 2),
  xor_half (a / 2 / 2 / 2 / 2 / 2 / 2 / 2) (b / 2 / 2 / 2 / 2 / 2 / 2 / 2),
  ap (bit_xor (a / 256)) gone,
  xor-zero (a / 256),
  ap₂ bit_xor top gone',
)
  where
    gone : b / 256 ≡ 0
    gone = omega arith

    top : a / 2 / 2 / 2 / 2 / 2 / 2 / 2 / 2 ≡ a / 256
    top = omega arith

    gone' : b / 2 / 2 / 2 / 2 / 2 / 2 / 2 / 2 ≡ 0
    gone' = omega arith

-- One byte of a message moves the rest of the remainder down, and its low byte goes through the
-- table.
pub shift_byte :
    (remainder byte : ℕ)
    → byte < 256
    → shift_bits 8 (bit_xor remainder byte)
      ≡ bit_xor (shift_bits 8 (bit_xor byte remainder % 256)) (remainder / 256)
shift_byte remainder byte small =
    ap (shift_bits 8) (sym split)
    ∙ shift_bits_high 8 (bit_xor remainder byte / 256) (bit_xor remainder byte % 256) (omega arith)
    ∙ ap₂ (λ l h. bit_xor (shift_bits 8 (l % 256)) h) (xor_comm remainder byte)
        (xor_byte_high remainder byte small)
  where
    split :
        bit_xor remainder byte / 256 * 2 ^ 8 + bit_xor remainder byte % 256 ≡ bit_xor remainder byte
    split = omega arith

entry-eq : (i : ℕ) → crc_by_bit (i ∷ []) 0 ≡ shift_bits 8 i
unfolding crc_by_bit
entry-eq i = ap (shift_bits 8) (zero-xor i)

-- The loop from `dividend` down writes the entries up to `dividend`, and no other.
fill_table_above :
    (dividend i : ℕ) (table : List ℕ)
    → dividend < i
    → get_or (fill_table dividend table) i 0 ≡ get_or table i 0
unfolding fill_table
fill_table_above zero i table h = get_or-set_ne table 0 i (crc_by_bit (0 ∷ []) 0) 0 (omega arith)
fill_table_above (suc n) i table h =
    fill_table_above n i (set table (suc n) (crc_by_bit (suc n ∷ []) 0)) (omega arith)
    ∙ get_or-set_ne table (suc n) i (crc_by_bit (suc n ∷ []) 0) 0 (omega arith)

pub fill_table_entry :
    (dividend i : ℕ) (table : List ℕ)
    → dividend < length table
    → i ≤ dividend
    → get_or (fill_table dividend table) i 0 ≡ shift_bits 8 i
unfolding fill_table
fill_table_entry zero zero table h k =
    get_or-set_self table 0 (crc_by_bit (0 ∷ []) 0) 0 h ∙ entry-eq 0
fill_table_entry zero (suc i) table h k = absurd (omega arith)
fill_table_entry (suc n) i table h k = elim (ℕ_discrete i (suc n)) [
  | yes e ↦ rw e (
      fill_table_above n (suc n) (set table (suc n) (crc_by_bit (suc n ∷ []) 0)) (omega arith)
      ∙ get_or-set_self table (suc n) (crc_by_bit (suc n ∷ []) 0) 0 h
      ∙ entry-eq (suc n))
  | no ne ↦
      fill_table_entry n i (set table (suc n) (crc_by_bit (suc n ∷ []) 0))
        (omega (arith, length-set table (suc n) (crc_by_bit (suc n ∷ []) 0))) (omega arith)
]

-- The table holds the eight rounds of each byte.
abbrev pub IsTable : List ℕ → Type 0
IsTable table = (i : ℕ) → i < 256 → get_or table i 0 ≡ shift_bits 8 i

pub table_init-IsTable : (table : List ℕ) → length table ≡ 256 → IsTable (table_init table)
table_init-IsTable table e i h = fill_table_entry 255 i table (omega arith) (omega arith)

-- All entries are bytes.
abbrev pub AreBytes : List ℕ → Type 0
AreBytes [] = Unit
AreBytes (b ∷ rest) = (b < 256) × AreBytes rest

-- With a correct table, the computation by bytes is the computation by bits.
pub crc_by_byte-eq-crc_by_bit :
    (message : List ℕ) (remainder : ℕ) (table : List ℕ)
    → AreBytes message
    → IsTable table
    → crc_by_byte message remainder table ≡ crc_by_bit message remainder
unfolding crc_by_byte crc_by_bit
crc_by_byte-eq-crc_by_bit [] remainder table b t = refl
crc_by_byte-eq-crc_by_bit (byte ∷ rest) remainder table b t =
    crc_by_byte-eq-crc_by_bit rest _ table b.1 t
    ∙ ap (crc_by_bit rest) (
        ap (λ e. bit_xor e (remainder / 256)) (t (bit_xor byte remainder % 256) (omega arith))
        ∙ sym (shift_byte remainder byte b.0))

-- The static variables are as at program start, or hold a correct table.
abbrev pub IsReady : Statics → Type 0
IsReady s =
    ((s.initialized ≡ true) × IsTable s.table) ⊎ ((s.initialized ≡ false) × (length s.table ≡ 256))

pub context_init-IsTable : (s : Statics) → IsReady s → IsTable (context_init s).0.table
unfolding context_init
context_init-IsTable s (inl (e, t)) = rw (e, context_init) t
context_init-IsTable s (inr (e, l)) = rw (e, context_init) (table_init-IsTable s.table l)

abbrev made : Statics → Statics
made s = record { table = table_init s.table; initialized = true }

context_init-IsReady : (s : Statics) → IsReady s → IsReady (context_init s).0
unfolding context_init
context_init-IsReady s (inl (e, t)) =
    subst (λ b. IsReady (if b then s else made s)) (sym e) (inl (e, t))
context_init-IsReady s (inr (e, l)) =
    subst (λ b. IsReady (if b then s else made s)) (sym e)
      (inl (refl, table_init-IsTable s.table l))

-- `crc32CalculateBuffer`, whether or not the table was made before, returns the bitwise CRC-32 of
-- the buffer, and leaves the static variables fit for the next call.
pub calculate_buffer_lem :
    (s : Statics) (buffer : List ℕ)
    → IsReady s
    → AreBytes buffer
    → ((calculate_buffer s buffer).1
        ≡ bit_xor (crc_by_bit buffer initial_remainder) final_xor_value)
      × IsReady (calculate_buffer s buffer).0
unfolding calculate_buffer
calculate_buffer_lem s buffer r b = (
  ap (λ t. bit_xor t final_xor_value)
      (crc_by_byte-eq-crc_by_bit buffer initial_remainder (context_init s).0.table b
        (context_init-IsTable s r)),
  context_init-IsReady s r,
)

-- A message may be fed in pieces.
pub update-append :
    (s : Statics) (xs : List ℕ) (remainder : ℕ) (ys : List ℕ)
    → update s remainder (xs ++ ys) ≡ update s (update s remainder xs) ys
unfolding update crc_by_byte
update-append s [] remainder ys = refl
update-append s (x ∷ xs) remainder ys =
    update-append s xs (bit_xor (get_or s.table (bit_xor x remainder % 256) 0) (remainder / 256)) ys
