-- ===== src/Delivery/Flights.antt =====
-- From the ambassador's CONF_RADIO and SEND_MESSAGE to what leaves the node: the commands of
-- src/mgmt/MosaicEventScheduler.cc go through src/mgmt/MosaicScenarioManager.cc to the application in
-- src/node/MosaicProxyApp.cc.
use omnetpp_federate.Prelude.{
  ℕ, suc, ◌%◌, ◌^◌, ◌≡◌, ◌∙◌, refl, Bool, true, false, some, List, [], ◌∷◌, ◌++◌, arith, ◌==◌,
  if◌then◌else◌, Bool-cases, inl, inr,
}
use omnetpp_federate.Prelude.Int.{ℤ, pos, to_i32, eq_ℤ}
use omnetpp_federate.Prelude.Outcome.{Outcome, done, ◌>>=◌}
use omnetpp_federate.Prelude.Dict.{lookup}
use omnetpp_federate.Messages.{
  MosaicConfigurationCmd, MosaicCommunicationCmd, MosaicAppPacket, send_message,
}
use omnetpp_federate.Channel.Types.{
  SendMessage, SendMessageMessage, Address, topo, rectangle, circle, no_address, TopoAddress,
}
use omnetpp_federate.Channel.Read.Messages.{fill_send, fill_address}
use omnetpp_federate.Channel.Convert.{proto_channel_to_channel}
use omnetpp_federate.Channel.Interface.{Channel}
use omnetpp_federate.Scheduler.Simulation.{
  Kernel, Event, Payload, configuration, communication, app_packet,
}
use omnetpp_federate.Scheduler.Commands.{int_of_channel, communication_payload}
use omnetpp_federate.Scheduler.{Scheduler}
use omnetpp_federate.Scenario.{Manager, Node, Creator, Sending}
use omnetpp_federate.Scenario.Handlers.{send_to, send_v2x_message, configure_radio, handle_message}
use omnetpp_federate.Proxy.{
  Arrival, configuration as to_configure, app_packet as to_send, foreign, fed_in,
  handle_message_when_up,
}
use omnetpp_federate.Proxy.Radios.{Doubles, App}
use omnetpp_federate.Delivery.Commands.{channel_number, int_of_channel-channel_number}

-- What arrives at the gate `fedIn` of a node, by its dynamic type.
abbrev pub arrival_of : {D : Type 0} → Payload D → Arrival D
arrival_of (configuration cmd) = to_configure cmd
arrival_of (app_packet p) = to_send p
arrival_of _ = foreign

-- The connection from the gate of the manager: the application handles one message after another, each
-- with its random number.
abbrev pub hand_over :
    {D : Type 0} → Doubles D → (ℕ → D) → List (Sending D) → App D → Outcome (App D)
hand_over d draws [] a = done a
hand_over d draws (x ∷ xs) a =
    handle_message_when_up d (draws 0) a fed_in (arrival_of x.payload)
    >>= hand_over d (λ n. draws (suc n)) xs

-- A message goes out only if it is for the neighbours of its node.
abbrev pub is_single_hop : {D : Type 0} → Address D → Bool
is_single_hop (topo a) = a.ttl == 1
is_single_hop _ = false

abbrev ip_of : {D : Type 0} → Address D → ℕ
ip_of (topo a) = a.ip_address
ip_of (rectangle a) = a.ip_address
ip_of (circle a) = a.ip_address
ip_of no_address = 0

abbrev pub has_address : {D : Type 0} → Address D → Bool
has_address no_address = false
has_address _ = true

-- The packet that is made of a message.
abbrev pub packet_of : {D : Type 0} → SendMessageMessage D → MosaicAppPacket
packet_of message = record {
  node_id = to_i32 message.node_id;
  msg_id = to_i32 message.message_id;
  length = pos 0;
  channel_id = pos (channel_number message.channel_id);
  dest_addr = ip_of message.address;
}

fill_address-known :
    {D : Type 0} (ret : TopoAddress) (address : Address D)
    → has_address address ≡ true
    → ((fill_address ret address).ip_address ≡ ip_of address)
      × (eq_ℤ (fill_address ret address).ttl (pos 1) ≡ is_single_hop address)
unfolding fill_address to_i32
fill_address-known ret (topo a) h = (refl, ground arith)
fill_address-known ret (rectangle a) h = (refl, refl)
fill_address-known ret (circle a) h = (refl, refl)
fill_address-known ret no_address h = absurd cc

-- The manager when it has sent by the gate of this index.
abbrev pub sent_to : {D Q S : Type 0} → Manager D Q S → ℤ → Payload D → ℤ → Manager D Q S
sent_to s id p bytes = record s {
  sent = s.sent ++ (record { gate = id; payload = p; bytes = bytes } ∷ []);
}

module _ {D Q T F C : Type 0} (k : Kernel D T F) (ch : Channel D C) (create : Creator D Q)
    (e : Event D T) (s : Manager D Q (Scheduler T F C)) (node : Node D Q) (j : ℤ) where
  pub configured :
      (cmd : MosaicConfigurationCmd D)
      → e.payload ≡ configuration cmd
      → lookup cmd.node_id s.nodes ≡ some node
      → node.proxy ≡ some j
      → handle_message k ch create e s ≡ done (sent_to s cmd.node_id (configuration cmd) (pos 0))
  unfolding handle_message configure_radio send_to
  configured cmd p known proxied =
      rw (handle_message, p) (rw (configure_radio, known, send_to, proxied) refl)

  abbrev pub packet : MosaicCommunicationCmd → MosaicAppPacket
  packet cmd = record {
    node_id = cmd.node_id;
    msg_id = cmd.msg_id;
    length = pos 0;
    channel_id = cmd.channel_id;
    dest_addr = cmd.dest_addr;
  }

  communicated :
      (cmd : MosaicCommunicationCmd)
      → e.payload ≡ communication cmd
      → lookup cmd.node_id s.nodes ≡ some node
      → node.proxy ≡ some j
      → handle_message k ch create e s
        ≡ done (
            if eq_ℤ cmd.ttl (pos 1)
            then sent_to s cmd.node_id (app_packet (packet cmd)) cmd.length
            else s)
  unfolding handle_message send_v2x_message send_to
  communicated cmd p known proxied = elim (Bool-cases (eq_ℤ cmd.ttl (pos 1))) [
    | inl q ↦ rw (handle_message, p) (rw (send_v2x_message, known, q, send_to, proxied) refl)
    | inr q ↦ rw (handle_message, p) (rw (send_v2x_message, known, q) refl)
  ]

  -- The command that a message of the federate becomes.
  abbrev command_of : SendMessage → SendMessageMessage D → MosaicCommunicationCmd
  command_of junk message = record {
    node_id = to_i32 message.node_id;
    channel_id = int_of_channel (proto_channel_to_channel message.channel_id);
    msg_id = to_i32 message.message_id;
    length = to_i32 (message.length % 2 ^ 32);
    ttl = (fill_address junk.topo_address message.address).ttl;
    dest_addr = (fill_address junk.topo_address message.address).ip_address;
    cmd_type = send_message;
  }

  packet-packet_of :
      (junk : SendMessage) (message : SendMessageMessage D)
      → has_address message.address ≡ true
      → packet (command_of junk message) ≡ packet_of message
  packet-packet_of junk message h =
      let (ip, hops) = fill_address-known junk.topo_address message.address h in
      rw (int_of_channel-channel_number message.channel_id, ip) refl

  pub sent-message :
      (junk : SendMessage) (message : SendMessageMessage D)
      → e.payload ≡ communication_payload (fill_send junk message)
      → has_address message.address ≡ true
      → lookup (to_i32 message.node_id) s.nodes ≡ some node
      → node.proxy ≡ some j
      → handle_message k ch create e s
        ≡ done (
            if is_single_hop message.address
            then sent_to s
                (to_i32 message.node_id)
                (app_packet (packet_of message))
                (to_i32 (message.length % 2 ^ 32))
            else s)
  unfolding communication_payload fill_send
  sent-message junk message p addressed known proxied =
      let (ip, hops) = fill_address-known junk.topo_address message.address addressed in
      communicated (command_of junk message) p known proxied
      ∙ rw (hops, packet-packet_of junk message addressed) refl
