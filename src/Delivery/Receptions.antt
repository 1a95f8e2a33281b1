-- ===== src/Delivery/Receptions.antt =====
-- From a packet that a node hears to the bytes for the ambassador: `handleMessageWhenUp` of
-- src/node/MosaicProxyApp.cc, `handleMessage` of src/mgmt/MosaicScenarioManager.cc,
-- `reportReceivedV2xMessage` of src/mgmt/MosaicEventScheduler.cc and the writers of
-- src/util/ClientServerChannel.cc.
use Prim.Native.String.{String}
use mathlib.Core.List.{append_assoc}
use omnetpp_federate.Prelude.{ℕ, ◌^◌, ◌<◌, ◌≡◌, ◌∙◌, refl, ap, some, List, [], ◌∷◌, ◌++◌}
use omnetpp_federate.Prelude.Int.{ℤ, pos, to_i32, to_u32}
use omnetpp_federate.Prelude.Outcome.{Ends}
use omnetpp_federate.Messages.{MosaicAppPacket}
use omnetpp_federate.Channel.Types.{cmd_msg_recv, SendMessageMessage, ReceiveMessage}
use omnetpp_federate.Channel.Convert.{channel_to_proto_channel}
use omnetpp_federate.Channel.System.{Sockets, Codec, StreamLaws}
use omnetpp_federate.Channel.Write.{command_frame, framed, write_command, write_receive_message}
use omnetpp_federate.Channel.Interface.{Channel, client_server_channel}
use omnetpp_federate.Scheduler.Simulation.{Kernel, Event, app_packet}
use omnetpp_federate.Scheduler.Commands.{channel_of_int}
use omnetpp_federate.Scheduler.{Scheduler}
use omnetpp_federate.Scenario.{Manager, Creator}
use omnetpp_federate.Scenario.Handlers.{handle_message}
use omnetpp_federate.Scenario.Reports.Told.{report_of, passed}
use omnetpp_federate.Proxy.{socket_in, udp_packet, handle_message_when_up}
use omnetpp_federate.Proxy.Radios.{Doubles, App, to_federate}
use omnetpp_federate.Delivery.Commands.{
  channel_number, channel_of_int-channel_number, to_u32-to_i32,
}
use omnetpp_federate.Delivery.Flights.{packet_of}

module _ {D T F S : Type 0} (k : Kernel D T F) (os : Sockets S) (codec : Codec D) where
  -- What the ambassador is told: that the node `n` has received the message.
  abbrev pub reception : Event D T → ℕ → SendMessageMessage D → ReceiveMessage
  reception e n message = record {
    time = k.in_ns e.arrival_time;
    node_id = n;
    channel_id = message.channel_id;
    message_id = message.message_id;
    rssi = pos 0;
  }

  abbrev pub reported_bytes : Event D T → ℕ → SendMessageMessage D → List ℕ
  reported_bytes e n message =
      command_frame os codec cmd_msg_recv
      ++ framed os codec (codec.serialize_receive (reception e n message))

module _ {D Q T F S : Type 0} (k : Kernel D T F) (os : Sockets S) (codec : Codec D)
    (stream : StreamLaws os) (prepare : String → ℕ → S → ℤ × S) (accept close : S → S) (byte : ℕ)
    (create : Creator D Q) (e : Event D T) where
  open stream use {sent}

  abbrev channel : Channel D S
  channel = client_server_channel prepare accept close os codec byte

  -- The packet for the manager, made of the one that was heard.
  abbrev heard : ℕ → SendMessageMessage D → MosaicAppPacket
  heard n message = record (packet_of message) { node_id = to_i32 n }

  -- The numbers and the channel come out as the ambassador gave them.
  as_given :
      (n : ℕ) (message : SendMessageMessage D)
      → n < 2 ^ 32
      → message.message_id < 2 ^ 32
      → record (reception k os codec e n message) {
        node_id = to_u32 (to_i32 n);
        channel_id =
            channel_to_proto_channel (channel_of_int (pos (channel_number message.channel_id)));
        message_id = to_u32 (to_i32 message.message_id);
      }
        ≡ reception k os codec e n message
  as_given n message hn hm =
      rw
        (
          to_u32-to_i32 n hn,
          to_u32-to_i32 message.message_id hm,
          channel_of_int-channel_number message.channel_id,
        )
        refl

  report_of-sent :
      (c : S) (n : ℕ) (message : SendMessageMessage D)
      → n < 2 ^ 32
      → message.message_id < 2 ^ 32
      → sent (report_of k channel e (heard n message) c)
        ≡ sent c ++ reported_bytes k os codec e n message
  unfolding write_command write_receive_message
  report_of-sent c n message hn hm =
      stream.send-sent _ _
      ∙ ap
          (λ (m : ReceiveMessage).
            sent (write_command os codec cmd_msg_recv c)
            ++ framed os codec (codec.serialize_receive m))
          (as_given n message hn hm)
      ∙ rw (write_command, stream.send-sent) (append_assoc (sent c) _ _)

  -- An application with the external id `n` that hears the packet of a message passes one packet on. When
  -- the manager is given this one, it returns, and MSG_RECV and the reception are what is sent to
  -- the ambassador: the node `n`, and the id and the channel of the message as the ambassador once gave
  -- them, at the arrival time. Ids are below 2 ^ 32.
  pub handle_message-reception :
      (d : Doubles D) (draw : D) (r : App D) (s : Manager D Q (Scheduler T F S)) (n : ℕ)
      (message : SendMessageMessage D)
      → r.external_id ≡ to_i32 n
      → n < 2 ^ 32
      → message.message_id < 2 ^ 32
      → Ends
          (handle_message_when_up d draw r socket_in (udp_packet (some (packet_of message))))
          (λ b.
            (p : MosaicAppPacket) × (b.sent ≡ r.sent ++ (to_federate p ∷ []))
            × Ends (handle_message k channel create (record e { payload = app_packet p }) s) (λ t.
              sent t.sched.federate_ambassador
              ≡ sent s.sched.federate_ambassador ++ reported_bytes k os codec e n message))
  unfolding handle_message_when_up
  handle_message-reception d draw r s n message id hn hm = (
    heard n message,
    rw id refl,
    rw
        (passed k channel create (record e { payload = app_packet (heard n message) }) s
          (heard n message) refl)
        (report_of-sent s.sched.federate_ambassador n message hn hm),
  )
