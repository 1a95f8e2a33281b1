-- ===== src/Proxy.antt =====
-- The UDP application of a node, src/node/MosaicProxyApp.h and .cc: its state, the start-up stages,
-- and the message handlers. Children: `Radios` is the radio switching and the configuration.
pub mod Radios
pub mod Modes
pub mod Branches
pub mod Settings
pub mod Sending
pub mod Startup
pub mod Tests
use Prim.Native.String.{String}
use text.Mathlib.Text.{◌==◌ as str_eq}
use omnetpp_federate.Prelude.{
  ℕ, Bool, true, ◌&&◌, Option, none, some, List, [], ◌∷◌, ◌++◌, ltb, ◌==◌, if◌then◌else◌,
}
use omnetpp_federate.Prelude.Int.{ℤ, eq_ℤ}
use omnetpp_federate.Prelude.Outcome.{Outcome, done, stop, ◌>>=◌, null_pointer, runtime_error}
use omnetpp_federate.Messages.{MosaicConfigurationCmd, MosaicAppPacket}
use Radios.{
  Doubles, NetworkInterface, operating, not_operating, to_socket, to_federate, App, UdpPacket,
  connect_radios, handle_configuration,
}

-- What `initialize` reads from outside: the parameters of the NED file and the interface table.
pub record Environment (D : Type 0) : Type 0 where
  pub local_port : ℤ
  pub dest_port : ℤ
  pub max_proc_delay : D
  pub local_address : String
  pub resolve : String → ℕ  -- `inet::L3AddressResolver`
  pub interfaces : Option (List (NetworkInterface D))  -- `none`: no interface table

-- The message that arrives, by its dynamic type. A UDP packet holds a `MosaicAppPacket` or not.
pub data Arrival (D : Type 0) : Type 0 where
  configuration : MosaicConfigurationCmd D → Arrival D
  app_packet : MosaicAppPacket → Arrival D
  udp_packet : Option MosaicAppPacket → Arrival D
  foreign : Arrival D

pub data Gate : Type 0 where
  fed_in socket_in other_gate : Gate

module _ {D : Type 0} where
  abbrev pub has_name : String → NetworkInterface D → Bool
  has_name name i = str_eq i.full_name name

  -- The loop over the interface table: the last interface of either name is kept.
  pub find_interfaces : List (NetworkInterface D) → App D → App D
  find_interfaces [] a = a
  find_interfaces (i ∷ is) a = find_interfaces is (
      if i.is_loopback
      then a
      else (if has_name "wlan0" i
          then record a { ie0 = some i }
          else (if has_name "wlan1" i then record a { ie1 = some i } else a)))

  bind_socket : Environment D → App D → App D
  bind_socket env a = record a {
    local_port = env.local_port;
    dest_port = env.dest_port;
    max_proc_delay = env.max_proc_delay;
    local_address = address;
    bound = some (address, env.local_port);
    broadcast = true;
  }
    where
      address : ℕ
      address = if str_eq env.local_address "" then 0 else env.resolve env.local_address

  -- Both radios are kept and switched off, once both interfaces were found.
  find_radios : App D → NetworkInterface D → NetworkInterface D → Outcome (App D)
  find_radios a i0 i1 = elim i0.radio [
    | none ↦ done (record a { state = not_operating; radio0 = none })
    | some r0 ↦ elim i1.radio [
      | none ↦ done (record a { state = not_operating; radio0 = some r0; radio1 = none })
      | some r1 ↦ do
        b ← connect_radios (record a { radio0 = some r0; radio1 = some r1; num_radios = 2 }) 0
        done (record b { state = operating })
    ]
  ]

  pub need_interfaces : App D → Outcome (App D)
  unfolding find_radios
  need_interfaces a = elim a.ie0 [
    | none ↦ done (record a { state = not_operating })
    | some i0 ↦ elim a.ie1 [
      | none ↦ done (record a { state = not_operating })
      | some i1 ↦ find_radios a i0 i1
    ]
  ]

  pub initialize : Environment D → App D → ℕ → Outcome (App D)
  unfolding bind_socket need_interfaces
  initialize env a stage =
      if stage == 3
      then done (bind_socket env a)
      else (if stage == 5
          then elim env.interfaces [
            | none ↦ need_interfaces a
            | some is ↦ need_interfaces (find_interfaces is a)
          ]
          else done a)

  transmit : App D → MosaicAppPacket → D → Option (NetworkInterface D) → Outcome (App D)
  transmit a p delay none = stop null_pointer a
  transmit a p delay (some i) = done (record a { sent = a.sent ++ (to_socket packet delay ∷ []) })
    where
      packet : UdpPacket
      packet = record {
        payload = p;
        src_address = a.local_address;
        dest_address = p.dest_addr;
        dest_port = a.dest_port;
        interface_id = i.interface_id;
      }

  -- The caller has cast the message, so it is a `MosaicAppPacket`.
  send_delayed_to_udp : App D → MosaicAppPacket → D → Outcome (App D)
  unfolding transmit
  send_delayed_to_udp a p delay =
      if ltb a.num_radios 1
      then done a
      else (if ltb 0 a.num_radios && eq_ℤ p.channel_id a.radio0_channel
          then transmit a p delay a.ie0
          else (if ltb 1 a.num_radios && eq_ℤ p.channel_id a.radio1_channel
              then transmit a p delay a.ie1
              else done a))

  -- `draw` is what `dblrand` returns.
  send_packet : Doubles D → D → App D → Arrival D → Outcome (App D)
  unfolding send_delayed_to_udp
  send_packet d draw a (app_packet p) = send_delayed_to_udp a p (d.times draw a.max_proc_delay)
  send_packet d draw a _ = stop runtime_error a

  receive_packet : App D → Arrival D → Outcome (App D)
  receive_packet a (udp_packet (some p)) =
      done (record a { sent = a.sent ++ (to_federate (record p { node_id = a.external_id }) ∷ []) })
  receive_packet a _ = stop runtime_error a

  from_federate : Doubles D → D → App D → Arrival D → Outcome (App D)
  unfolding send_packet
  from_federate d draw a (configuration cmd) = handle_configuration d a cmd
  from_federate d draw a msg = if ltb 0 a.num_radios then send_packet d draw a msg else done a

  unfoldable pub handle_message_when_up : Doubles D → D → App D → Gate → Arrival D → Outcome (App D)
  unfolding from_federate receive_packet
  handle_message_when_up d draw a fed_in msg = from_federate d draw a msg
  handle_message_when_up d draw a socket_in msg = receive_packet a msg
  handle_message_when_up d draw a other_gate msg = done a

  pub set_external_id : App D → ℤ → App D
  set_external_id a id = record a { external_id = id }

  get_external_id : App D → ℤ
  get_external_id a = a.external_id

  -- The operations of the life cycle do nothing.
  handle_start_operation : App D → App D
  handle_start_operation a = a

  handle_stop_operation : App D → App D
  handle_stop_operation a = a

  handle_crash_operation : App D → App D
  handle_crash_operation a = a
