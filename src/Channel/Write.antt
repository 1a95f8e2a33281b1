-- ===== src/Channel/Write.antt =====
-- The writers of src/util/ClientServerChannel.cc: a message is sent behind its length.
use omnetpp_federate.Prelude.{ℕ, List, ◌++◌, length}
use omnetpp_federate.Prelude.Int.{ℤ, to_u32}
use omnetpp_federate.Channel.Types.{Cmd, RadioChannel, ReceiveMessage}
use omnetpp_federate.Channel.Convert.{cmd_to_proto_cmd, channel_to_proto_channel}
use omnetpp_federate.Channel.System.{Sockets, Codec}

module _ {D S : Type 0} (os : Sockets S) (codec : Codec D) where
  -- The buffer: the varint of the message's size, and the message.
  abbrev pub framed : List ℕ → List ℕ
  framed body = codec.write_varint (length body) ++ body

  -- The frame of a command, as it is sent and as it arrives.
  abbrev pub command_frame : Cmd → List ℕ
  command_frame cmd = framed (codec.serialize_command (cmd_to_proto_cmd cmd))

  abbrev pub time_frame : ℤ → List ℕ
  time_frame t = framed (codec.serialize_time (record { time = t }))

  unfoldable pub write_command : Cmd → S → S
  write_command cmd s = os.send (framed (codec.serialize_command (cmd_to_proto_cmd cmd))) s

  unfoldable pub write_receive_message : ℤ → ℤ → ℤ → RadioChannel → ℤ → S → S
  write_receive_message time node_id message_id channel rssi s =
      os.send (framed (codec.serialize_receive message)) s
    where
      message : ReceiveMessage
      message = record {
        time = time;
        node_id = to_u32 node_id;
        channel_id = channel_to_proto_channel channel;
        message_id = to_u32 message_id;
        rssi = rssi;
      }

  unfoldable pub write_time_message : ℤ → S → S
  write_time_message time s = os.send (framed (codec.serialize_time (record { time = time }))) s

  unfoldable pub write_port : ℕ → S → S
  write_port port s = os.send (framed (codec.serialize_port (record { port_number = port }))) s
