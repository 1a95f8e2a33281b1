-- ===== src/Channel/Read/Messages.antt =====
-- `readConfigurationMessage` and `readSendMessage` of src/util/ClientServerChannel.cc, which answer
-- with `CMD_SUCCESS` themselves.
use omnetpp_federate.Prelude.{ℕ, ◌%◌, ◌^◌}
use omnetpp_federate.Prelude.Int.{ℤ, pos, negsuc, to_i32}
use omnetpp_federate.Channel.Types.{
  cmd_success, RadioNumber, no_radio, single_radio, dual_radio, ChannelMode, single_channel,
  dual_channel, RadioConfig, RadioConfiguration, ConfigMessage, ConfigureRadioMessage, Address,
  topo, rectangle, circle, no_address, TopoAddress, SendMessage, SendMessageMessage,
}
use omnetpp_federate.Channel.Convert.{proto_channel_to_channel}
use omnetpp_federate.Channel.System.{Sockets, Codec}
use omnetpp_federate.Channel.Varint.{Prefix, size, read_varint_prefix}
use omnetpp_federate.Channel.Write.{write_command}
use omnetpp_federate.Channel.Read.{read_buffer}

module _ {D : Type 0} where
  unfoldable pub fill_mode : RadioConfig D → RadioConfiguration D → ChannelMode → RadioConfig D
  fill_mode ret conf single_channel = record ret { channelmode = single_channel }
  fill_mode ret conf dual_channel = record ret {
    channelmode = dual_channel;
    secondary_channel = proto_channel_to_channel conf.secondary_radio_channel;
  }

  -- One radio; the secondary channel is read for a dual-channel radio only.
  unfoldable pub fill_radio : RadioConfig D → RadioConfiguration D → RadioConfig D
  unfolding fill_mode
  fill_radio ret conf =
      fill_mode
        (record ret {
          turned_on = conf.receiving_messages;
          ip_address = conf.ip_address;
          subnet = conf.subnet_address;
          tx_power = conf.transmission_power;
          primary_channel = proto_channel_to_channel conf.primary_radio_channel;
        })
        conf conf.radio_mode

  unfoldable pub fill_radios :
      ConfigMessage D → ConfigureRadioMessage D → RadioNumber → ConfigMessage D
  unfolding fill_radio
  fill_radios ret message no_radio = record ret { num_radios = no_radio }
  fill_radios ret message single_radio = record ret {
    num_radios = single_radio;
    primary_radio = fill_radio ret.primary_radio message.primary_radio_configuration;
  }
  fill_radios ret message dual_radio = record ret {
    num_radios = dual_radio;
    primary_radio = fill_radio ret.primary_radio message.primary_radio_configuration;
    secondary_radio = fill_radio ret.secondary_radio message.secondary_radio_configuration;
  }

  unfoldable pub fill_config : ConfigMessage D → ConfigureRadioMessage D → ConfigMessage D
  unfolding fill_radios
  fill_config ret message =
      fill_radios
        (record ret {
          time = message.time;
          msg_id = to_i32 message.message_id;
          node_id = to_i32 message.external_id;
        })
        message message.radio_number

unfoldable pub fill_address : {D : Type 0} → TopoAddress → Address D → TopoAddress
fill_address ret (topo a) = record { ip_address = a.ip_address; ttl = to_i32 a.ttl }
fill_address ret (rectangle a) = record { ip_address = a.ip_address; ttl = pos 10 }
fill_address ret (circle a) = record { ip_address = a.ip_address; ttl = pos 10 }
fill_address ret no_address = ret

-- The length is a `uint64` that is stored in an `int`.
unfoldable pub fill_send : {D : Type 0} → SendMessage → SendMessageMessage D → SendMessage
unfolding fill_address
fill_send ret message = record {
  time = message.time;
  node_id = to_i32 message.node_id;
  channel_id = proto_channel_to_channel message.channel_id;
  message_id = to_i32 message.message_id;
  length = to_i32 (message.length % 2 ^ 32);
  topo_address = fill_address ret.topo_address message.address;
}

module _ {D S : Type 0} (os : Sockets S) (codec : Codec D) (junk : ℕ) where
  unfoldable pub config_of_prefix : ConfigMessage D → Prefix × S → ℤ × ConfigMessage D × S
  unfolding fill_config
  config_of_prefix ret (size n, s) =
      let (buffer, _, s') = read_buffer os codec junk n s in
      (pos 0, fill_config ret (codec.parse_configure buffer), write_command os codec cmd_success s')
  config_of_prefix ret (_, s) = (negsuc 0, ret, s)

  unfoldable pub read_configuration_message : ConfigMessage D → S → ℤ × ConfigMessage D × S
  unfolding config_of_prefix
  read_configuration_message ret s = config_of_prefix ret (read_varint_prefix os junk s)

  unfoldable pub send_of_prefix : SendMessage → Prefix × S → ℤ × SendMessage × S
  unfolding fill_send
  send_of_prefix ret (size n, s) =
      let (buffer, _, s') = read_buffer os codec junk n s in
      (pos 0, fill_send ret (codec.parse_send buffer), write_command os codec cmd_success s')
  send_of_prefix ret (_, s) = (negsuc 0, ret, s)

  unfoldable pub read_send_message : SendMessage → S → ℤ × SendMessage × S
  unfolding send_of_prefix
  read_send_message ret s = send_of_prefix ret (read_varint_prefix os junk s)
