-- ===== src/Scheduler/Commands.antt =====
-- The messages that src/mgmt/MosaicEventScheduler.cc makes of what the channel has read.
use Prim.Native.String.{String}
use omnetpp_federate.Prelude.{
  ℕ, zero, suc, Bool, true, false, Option, none, some, [], map, if◌then◌else◌,
}
use omnetpp_federate.Prelude.Int.{ℤ, pos}
use omnetpp_federate.Messages.{
  Coord, MobilityCommandType, move_nodes, add_nodes, add_rsu_nodes, remove_nodes, MosaicMobilityCmd,
  MosaicConfigurationCmd, send_message, conf_radio,
}
use omnetpp_federate.Channel.Types.{
  RadioChannel, sch1, sch2, sch3, cch, sch4, sch5, sch6, undef_channel, unnamed_channel,
  RadioNumber, no_radio, single_radio, dual_radio, ChannelMode, single_channel, dual_channel,
  NodeData, RadioConfig, ConfigMessage, UpdateNodeType, update_add_rsu, update_add_vehicle,
  update_move_node, update_remove_node, update_unnamed, UpdateNodeReturn, SendMessage,
}
use omnetpp_federate.Scheduler.Simulation.{Payload, mobility, communication, configuration}

-- The values of `enum RADIO_CHANNEL`
unfoldable pub int_of_channel : RadioChannel → ℤ
int_of_channel sch1 = pos 0
int_of_channel sch2 = pos 1
int_of_channel sch3 = pos 2
int_of_channel cch = pos 3
int_of_channel sch4 = pos 4
int_of_channel sch5 = pos 5
int_of_channel sch6 = pos 6
int_of_channel undef_channel = pos 7
int_of_channel (unnamed_channel n) = n

-- `(RADIO_CHANNEL)`
unfoldable pub channel_of_int : ℤ → RadioChannel
channel_of_int (pos zero) = sch1
channel_of_int (pos (suc zero)) = sch2
channel_of_int (pos (suc (suc zero))) = sch3
channel_of_int (pos (suc (suc (suc zero)))) = cch
channel_of_int (pos (suc (suc (suc (suc zero))))) = sch4
channel_of_int (pos (suc (suc (suc (suc (suc zero)))))) = sch5
channel_of_int (pos (suc (suc (suc (suc (suc (suc zero))))))) = sch6
channel_of_int (pos (suc (suc (suc (suc (suc (suc (suc zero)))))))) = undef_channel
channel_of_int n = unnamed_channel n

abbrev pub number_of_radios : RadioNumber → ℕ
number_of_radios no_radio = 0
number_of_radios single_radio = 1
number_of_radios dual_radio = 2

abbrev pub number_of_channels : ChannelMode → ℕ
number_of_channels single_channel = 1
number_of_channels dual_channel = 2

module _ {D : Type 0} (zero_double : D) where
  -- `processUpdateNodeCommand`
  unfoldable pub process_update_node_command :
      UpdateNodeReturn D → MobilityCommandType → Bool → MosaicMobilityCmd D
  process_update_node_command message type new_position = record {
    cmd_type = type;
    node_id = map (λ (n : NodeData D). n.id) message.properties;
    position = if new_position then map place message.properties else [];
  }
    where
      place : NodeData D → Coord D
      place n = record { x = n.x; y = n.y; z = zero_double }

  unfoldable pub command_of_type :
      UpdateNodeReturn D → UpdateNodeType → Option (MosaicMobilityCmd D)
  unfolding process_update_node_command
  command_of_type message update_add_vehicle =
      some (process_update_node_command message add_nodes true)
  command_of_type message update_add_rsu =
      some (process_update_node_command message add_rsu_nodes true)
  command_of_type message update_move_node =
      some (process_update_node_command message move_nodes true)
  command_of_type message update_remove_node =
      some (process_update_node_command message remove_nodes false)
  command_of_type message update_unnamed = none

  unfoldable pub mobility_payload : UpdateNodeReturn D → Option (Payload D)
  unfolding command_of_type
  mobility_payload message = elim (command_of_type message message.type) [
    | none ↦ none
    | some cmd ↦ some (mobility cmd)
  ]

  abbrev second_channel : ChannelMode → RadioConfig D → ℤ
  unfolding int_of_channel
  second_channel single_channel r = pos 0
  second_channel dual_channel r = int_of_channel r.secondary_channel

  -- The fields of a new message object are zero.
  unfoldable pub blank : ConfigMessage D → MosaicConfigurationCmd D
  blank message = record {
    msg_id = message.msg_id;
    node_id = message.node_id;
    num_radios = number_of_radios message.num_radios;
    cmd_type = conf_radio;
    turned_on0 = false;
    ip0 = 0;
    subnet0 = 0;
    power0 = zero_double;
    numchannels0 = 0;
    channel00 = pos 0;
    channel01 = pos 0;
    turned_on1 = false;
    ip1 = 0;
    subnet1 = 0;
    power1 = zero_double;
    numchannels1 = 0;
    channel10 = pos 0;
    channel11 = pos 0;
  }

  unfoldable pub set_radio0 : RadioConfig D → MosaicConfigurationCmd D → MosaicConfigurationCmd D
  unfolding int_of_channel
  set_radio0 r cmd = record cmd {
    turned_on0 = r.turned_on;
    ip0 = r.ip_address;
    subnet0 = r.subnet;
    power0 = r.tx_power;
    numchannels0 = number_of_channels r.channelmode;
    channel00 = int_of_channel r.primary_channel;
    channel01 = second_channel r.channelmode r;
  }

  unfoldable pub set_radio1 : RadioConfig D → MosaicConfigurationCmd D → MosaicConfigurationCmd D
  unfolding int_of_channel
  set_radio1 r cmd = record cmd {
    turned_on1 = r.turned_on;
    ip1 = r.ip_address;
    subnet1 = r.subnet;
    power1 = r.tx_power;
    numchannels1 = number_of_channels r.channelmode;
    channel10 = int_of_channel r.primary_channel;
    channel11 = second_channel r.channelmode r;
  }

  unfoldable pub configure_radios : ConfigMessage D → RadioNumber → MosaicConfigurationCmd D
  unfolding blank set_radio0 set_radio1
  configure_radios message no_radio = blank message
  configure_radios message single_radio = set_radio0 message.primary_radio (blank message)
  configure_radios message dual_radio =
      set_radio1 message.secondary_radio (set_radio0 message.primary_radio (blank message))

  unfoldable pub configuration_payload : ConfigMessage D → Payload D
  unfolding configure_radios
  configuration_payload message = configuration (configure_radios message message.num_radios)

module _ {D : Type 0} where
  unfoldable pub communication_payload : SendMessage → Payload D
  unfolding int_of_channel
  communication_payload message = communication (record {
    node_id = message.node_id;
    channel_id = int_of_channel message.channel_id;
    msg_id = message.message_id;
    length = message.length;
    ttl = message.topo_address.ttl;
    dest_addr = message.topo_address.ip_address;
    cmd_type = send_message;
  })

-- The printed names.
print_mobility_command_type : MobilityCommandType → String
print_mobility_command_type move_nodes = "MOBILITY_CMD_MOVE_NODES"
print_mobility_command_type add_nodes = "MOBILITY_CMD_ADD_NODES"
print_mobility_command_type add_rsu_nodes = "MOBILITY_CMD_ADD_RSU_NODES"
print_mobility_command_type remove_nodes = "MOBILITY_CMD_REMOVE_NODES"
