-- ===== src/Router.antt =====
-- lib/cpx/src/cpx.c with lib/cpx/inc/cpx.h: CPX packets in a `packet_t` of com.c, and the queues
-- of the functions that receive them. The queues are FreeRTOS's: a call of the model says which
-- packet is put into which queue.
pub mod RoundTrip
mod Tests
use aideck_gap8_examples.Base.{
  ℕ, ◌+◌, ◌-◌, ◌*◌, ◌/◌, ◌%◌, ◌^◌, Bool, true, false, Option, none, some, List, [], ◌∷◌, ◌++◌,
  get_or, take, drop, set, ltb, ◌==◌, ◌!=◌, if◌then◌else◌, write, Outcome, ok, exit, ◌>>=◌,
}
use aideck_gap8_examples.Cpx.Header
use aideck_gap8_examples.Cpx.Header.{Header, cpx_version, pack, unpack}
use aideck_gap8_examples.Cpx.Function
use aideck_gap8_examples.Cpx.Target
use aideck_gap8_examples.Com.{packet_length, mtu}

abbrev pub header_size : ℕ
header_size = 2

-- `CPXRouting_t`
pub record Routing : Type 0 where
  pub destination : ℕ
  pub source : ℕ
  pub last_packet : Bool
  pub function : ℕ
  pub version : ℕ

-- `CPXPacket_t`; `payload` is the whole array `data`.
pub record Packet : Type 0 where
  pub route : Routing
  pub data_length : ℕ
  pub payload : List ℕ

-- `cpxInitRoute`
unfoldable pub init_route : ℕ → ℕ → ℕ → Routing
init_route source destination function = record {
  source = source;
  destination = destination;
  function = function;
  version = cpx_version;
  last_packet = true;
}

-- `txpPacked.route`, which has the layout of nanocockpit's header; `reserved` is never written.
unfoldable pub packed_route : Routing → Header
packed_route r = record {
  destination = r.destination;
  source = r.source;
  last_packet = r.last_packet;
  reserved = false;
  function = r.function;
  version = r.version;
}

pub data Fault : Type 0 where
  copy_overrun queues_overrun bad_version : Fault
  create_failed : Fault

-- `cpxSendPacketBlocking`, up to `com_write`: `tx` are the bytes of `txpPacked`.
unfoldable pub send_packet : List ℕ → Packet → Outcome Fault (List ℕ)
send_packet tx p =
    let wire_length = (p.data_length + header_size) % 2 ^ 16 in
    if ltb (mtu - header_size) p.data_length
    then exit copy_overrun
    else ok (
        write tx 0 (
          (wire_length % 256)
          ∷ (wire_length / 256)
          ∷ (pack (packed_route p.route) ++ take p.data_length p.payload)))

-- The array of `CPX_F_LAST` handles, by function; it is static, and NULL is 0.
abbrev pub Queues : Type 0
Queues = List ℕ

-- A round of `cpx_rx_task`, with the bytes that `com_read` delivered: the packet in `rxp`, and the
-- queue that it is sent to, if there is one. `memcpy` of more bytes than
-- `rxp.data` has is undefined, and so is a read behind `queues`, whose index the 6 bits of the
-- function can exceed.
unfoldable pub rx_round : Queues → Packet → List ℕ → Outcome Fault (Packet × Option ℕ)
rx_round queues rxp packed =
    let route = unpack (drop 2 packed) in
    let data_length = (packet_length packed + 2 ^ 16 - header_size) % 2 ^ 16 in
    if route.version != cpx_version
    then exit bad_version
    else if ltb (mtu - header_size) data_length
    then exit copy_overrun
    else if ltb route.function Function.last
    then ok (
      record {
        route = record {
          destination = route.destination;
          source = route.source;
          last_packet = route.last_packet;
          function = route.function;
          version = route.version;
        };
        data_length = data_length;
        payload = write rxp.payload 0 (take data_length (drop 4 packed));
      },
      if get_or queues route.function 0 != 0 then some (get_or queues route.function 0) else none,
    )
    else exit queues_overrun

-- `cpxEnableFunction`, with the handle that `xQueueCreate` returned.
unfoldable pub enable_function : Queues → ℕ → ℕ → Outcome Fault Queues
enable_function queues function handle =
    if ltb function Function.last
    then (if handle == 0 then exit create_failed else ok (set queues function handle))
    else exit queues_overrun

-- `cpxPrintToConsole` while it holds the semaphore: `text` are the bytes of `consoleTx.data` after
-- `vsnprintf`, and `printed` what that returned.
unfoldable pub print_to_console : Packet → List ℕ → ℕ → List ℕ → ℕ → Outcome Fault (Packet × List ℕ)
print_to_console console tx target text printed =
    let p : Packet = record {
      route = record console.route {
        destination = target;
        source = Target.gap;
        function = Function.console;
      };
      data_length = (printed + 1) % 2 ^ 16;
      payload = text;
    } in
    (do tx' ← send_packet tx p; ok (p, tx'))
