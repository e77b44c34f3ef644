-- ===== src/Cpx/Callbacks.antt =====
-- The callbacks of nanocockpit/lib/cpx/cpx.c: one for each CPX function, and what
-- `cpx_receive_task` does with a packet that came over SPI. A function pointer is its address.
use aideck_gap8_examples.Base.{
  ℕ, ◌<◌, ◌≡◌, ◌≢◌, List, [], ◌∷◌, ℕ_discrete, ◌>>=◌, sym, ap, inl, inr, ◌∙◌, Outcome-cases, ◌==◌,
  ◌!=◌, ltb, if◌then◌else◌, get_or, set, length, replicate, length-set, get_or-set_self,
  get_or-set_ne, Outcome, ok, exit, arith,
}
use aideck_gap8_examples.Spi.{null}
use aideck_gap8_examples.Cpx.{Fault, callback_registered, unsupported_version}
use aideck_gap8_examples.Cpx.Function
use aideck_gap8_examples.Cpx.Header.{Header, cpx_version}

-- Of `cpx_t`, the two arrays of `CPX_F_LAST` entries.
pub record Callbacks : Type 0 where
  pub receive_callbacks : List ℕ
  pub receiver_args : List ℕ

-- The loop of `cpx_init`.
abbrev pub callbacks_init : Callbacks
callbacks_init = record {
  receive_callbacks = replicate Function.last null;
  receiver_args = replicate Function.last null;
}

-- `cpx_register_rx_callback`
unfoldable pub register : Callbacks → ℕ → ℕ → ℕ → Outcome Fault Callbacks
register c function receive_callback receiver_args =
    if get_or c.receive_callbacks function null != null
    then exit callback_registered
    else ok (record {
      receive_callbacks = set c.receive_callbacks function receive_callback;
      receiver_args = set c.receiver_args function receiver_args;
    })

-- What becomes of a packet: its callback is started with its argument, or `done_task` is pushed.
pub data Delivery : Type 0 where
  callback : ℕ → ℕ → Delivery
  dropped : Delivery

-- `cpx_dispatch_callback_async`
unfoldable pub dispatch : Callbacks → ℕ → Delivery
dispatch c function =
    let receive_callback =
      (if ltb function Function.last then get_or c.receive_callbacks function null else null) in
    if receive_callback != null
    then callback receive_callback (get_or c.receiver_args function null)
    else dropped

-- One round of `cpx_receive_task` after the SPI transfer: a packet of length 0 is no packet.
unfoldable pub receive : Callbacks → Header → ℕ → Outcome Fault Delivery
unfolding dispatch
receive c header receive_length =
    if ltb 0 receive_length
    then (if header.version != cpx_version
        then exit unsupported_version
        else ok (dispatch c header.function))
    else ok dropped

-- The arrays have an entry for each function.
pub record IsValid (c : Callbacks) : Type 0 where
  pub callbacks_length : length c.receive_callbacks ≡ Function.last
  pub args_length : length c.receiver_args ≡ Function.last

pub init-IsValid : IsValid callbacks_init
init-IsValid = omega arith

-- Registering a callback for a function of its range keeps the arrays whole. From then on the
-- packets of that function go to that callback with its argument, and all other packets go where
-- they went before, those of unknown functions included.
pub dispatch-register :
    (c : Callbacks) (function cb args other : ℕ) {d : Callbacks}
    → IsValid c
    → function < Function.last
    → cb ≢ null
    → register c function cb args ≡ ok d
    → IsValid d
      × (dispatch d other ≡ (if other == function then callback cb args else dispatch c other))
unfolding register dispatch
dispatch-register c function cb args other {d} v h ne e = ground (
  arith,
  length-set c.receive_callbacks function cb,
  length-set c.receiver_args function args,
  get_or-set_self c.receive_callbacks function cb null,
  get_or-set_self c.receiver_args function args null,
  get_or-set_ne c.receive_callbacks function other cb null,
  get_or-set_ne c.receiver_args function other args null,
)

-- A call of `cpx_register_rx_callback`: the function, the callback and its argument.
abbrev pub Registration : Type 0
Registration = ℕ × ℕ × ℕ

-- Calls of it, one after the other.
unfoldable pub register_all : Callbacks → List Registration → Outcome Fault Callbacks
register_all c [] = ok c
register_all c ((function, cb, args) ∷ more) = do
  d ← register c function cb args
  register_all d more

-- A callback that is registered stays registered.
register-keeps :
    (c : Callbacks) (function other cb args : ℕ) {d : Callbacks}
    → get_or c.receive_callbacks function null ≢ null
    → register c other cb args ≡ ok d
    → get_or d.receive_callbacks function null ≢ null
unfolding register
register-keeps c function other cb args {d} h e = elim (ℕ_discrete function other) [
  | yes same ↦ absurd (ground (arith, h, same, e))
  | no differ ↦
      ground (
        arith,
        h,
        e,
        get_or-set_ne c.receive_callbacks other function cb null (λ z. differ (sym z)),
      )
]

registered_all :
    (calls : List Registration) (c : Callbacks) (function : ℕ) {d : Callbacks}
    → get_or c.receive_callbacks function null ≢ null
    → register_all c calls ≡ ok d
    → get_or d.receive_callbacks function null ≢ null
unfolding register_all
registered_all [] c function h e = ground (arith, h, e)
registered_all ((other, cb, args) ∷ more) c function h e =
    elim (Outcome-cases (register c other cb args)) [
      | inl (d, r) ↦
          registered_all more d function (register-keeps c function other cb args h r)
            (ap (λ o. (do d' ← o; register_all d' more)) (sym r) ∙ e)
      | inr (f, r) ↦
          absurd
            (let x = ap (λ o. (do d' ← o; register_all d' more)) (sym r) ∙ e in ground (arith, x))
    ]

-- A second registration for a function is refused, whatever callbacks were registered in between.
pub register_twice :
    (c : Callbacks) (function cb args cb' args' : ℕ) (between : List Registration) {d e : Callbacks}
    → IsValid c
    → function < Function.last
    → cb ≢ null
    → register c function cb args ≡ ok d
    → register_all d between ≡ ok e
    → register e function cb' args' ≡ exit callback_registered
unfolding register
register_twice c function cb args cb' args' between {d} {e} v h ne r more =
    let first : get_or d.receive_callbacks function null ≢ null =
      ground (arith, r, ne, h, get_or-set_self c.receive_callbacks function cb null) in
    let kept = registered_all between d function first more in ground (arith, kept)
