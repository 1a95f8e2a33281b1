-- ===== src/Channel/Convert.antt =====
-- The enum conversions of src/util/ClientServerChannel.cc, and that they undo one another.
use omnetpp_federate.Prelude.{◌≡◌, ◌∙◌, refl, sym, ap}
use omnetpp_federate.Prelude.Int.{ℤ, pos, negsuc}
use omnetpp_federate.Channel.Types.{
  Cmd, cmd_undef, cmd_init, cmd_shut_down, cmd_update_node, cmd_remove_node, cmd_advance_time,
  cmd_next_event, cmd_msg_recv, cmd_msg_send, cmd_conf_radio, cmd_end, cmd_success, CommandType,
  undef, init, shut_down, update_node, remove_node, advance_time, next_event, msg_recv, msg_send,
  conf_radio, end, success, RadioChannel, sch1, sch2, sch3, cch, sch4, sch5, sch6, undef_channel,
  unnamed_channel, ProtoChannel, proto_sch1, proto_sch2, proto_sch3, proto_cch, proto_sch4,
  proto_sch5, proto_sch6, proto_undef,
}

unfoldable pub cmd_to_proto_cmd : Cmd → CommandType
cmd_to_proto_cmd cmd_undef = undef
cmd_to_proto_cmd cmd_success = success
cmd_to_proto_cmd cmd_init = init
cmd_to_proto_cmd cmd_shut_down = shut_down
cmd_to_proto_cmd cmd_update_node = update_node
cmd_to_proto_cmd cmd_remove_node = remove_node
cmd_to_proto_cmd cmd_advance_time = advance_time
cmd_to_proto_cmd cmd_next_event = next_event
cmd_to_proto_cmd cmd_msg_recv = msg_recv
cmd_to_proto_cmd cmd_msg_send = msg_send
cmd_to_proto_cmd cmd_conf_radio = conf_radio
cmd_to_proto_cmd cmd_end = end

unfoldable pub proto_cmd_to_cmd : CommandType → Cmd
proto_cmd_to_cmd undef = cmd_undef
proto_cmd_to_cmd success = cmd_success
proto_cmd_to_cmd init = cmd_init
proto_cmd_to_cmd shut_down = cmd_shut_down
proto_cmd_to_cmd update_node = cmd_update_node
proto_cmd_to_cmd remove_node = cmd_remove_node
proto_cmd_to_cmd advance_time = cmd_advance_time
proto_cmd_to_cmd next_event = cmd_next_event
proto_cmd_to_cmd msg_recv = cmd_msg_recv
proto_cmd_to_cmd msg_send = cmd_msg_send
proto_cmd_to_cmd conf_radio = cmd_conf_radio
proto_cmd_to_cmd end = cmd_end

unfoldable pub proto_channel_to_channel : ProtoChannel → RadioChannel
proto_channel_to_channel proto_sch1 = sch1
proto_channel_to_channel proto_sch2 = sch2
proto_channel_to_channel proto_sch3 = sch3
proto_channel_to_channel proto_cch = cch
proto_channel_to_channel proto_sch4 = sch4
proto_channel_to_channel proto_sch5 = sch5
proto_channel_to_channel proto_sch6 = sch6
proto_channel_to_channel proto_undef = undef_channel

unfoldable pub channel_to_proto_channel : RadioChannel → ProtoChannel
channel_to_proto_channel sch1 = proto_sch1
channel_to_proto_channel sch2 = proto_sch2
channel_to_proto_channel sch3 = proto_sch3
channel_to_proto_channel cch = proto_cch
channel_to_proto_channel sch4 = proto_sch4
channel_to_proto_channel sch5 = proto_sch5
channel_to_proto_channel sch6 = proto_sch6
channel_to_proto_channel undef_channel = proto_undef
channel_to_proto_channel (unnamed_channel n) = proto_undef

pub proto_cmd_to_cmd-cmd_to_proto_cmd : (c : Cmd) → proto_cmd_to_cmd (cmd_to_proto_cmd c) ≡ c
unfolding proto_cmd_to_cmd cmd_to_proto_cmd
proto_cmd_to_cmd-cmd_to_proto_cmd cmd_undef = refl
proto_cmd_to_cmd-cmd_to_proto_cmd _ = refl

cmd_to_proto_cmd-proto_cmd_to_cmd : (t : CommandType) → cmd_to_proto_cmd (proto_cmd_to_cmd t) ≡ t
unfolding proto_cmd_to_cmd cmd_to_proto_cmd
cmd_to_proto_cmd-proto_cmd_to_cmd undef = refl
cmd_to_proto_cmd-proto_cmd_to_cmd _ = refl

-- The numbers that the header and the .proto file give the commands.
number_of_cmd : Cmd → ℤ
number_of_cmd cmd_undef = negsuc 0
number_of_cmd cmd_init = pos 1
number_of_cmd cmd_shut_down = pos 2
number_of_cmd cmd_update_node = pos 10
number_of_cmd cmd_remove_node = pos 11
number_of_cmd cmd_advance_time = pos 20
number_of_cmd cmd_next_event = pos 21
number_of_cmd cmd_msg_recv = pos 22
number_of_cmd cmd_msg_send = pos 30
number_of_cmd cmd_conf_radio = pos 31
number_of_cmd cmd_end = pos 40
number_of_cmd cmd_success = pos 41

number_of_type : CommandType → ℤ
number_of_type undef = negsuc 0
number_of_type init = pos 1
number_of_type shut_down = pos 2
number_of_type update_node = pos 10
number_of_type remove_node = pos 11
number_of_type advance_time = pos 20
number_of_type next_event = pos 21
number_of_type msg_recv = pos 22
number_of_type msg_send = pos 30
number_of_type conf_radio = pos 31
number_of_type end = pos 40
number_of_type success = pos 41

same_number : (c : Cmd) → number_of_type (cmd_to_proto_cmd c) ≡ number_of_cmd c
unfolding cmd_to_proto_cmd number_of_type number_of_cmd
same_number cmd_undef = refl
same_number _ = refl

-- The conversions of the commands keep the number that the header and the .proto file give a command,
-- each of its own, and each conversion undoes the other one.
cmd_to_proto_cmd-number :
    ((c : Cmd) → number_of_type (cmd_to_proto_cmd c) ≡ number_of_cmd c)
    × ((t : CommandType) → number_of_cmd (proto_cmd_to_cmd t) ≡ number_of_type t)
    × ((c : Cmd) → proto_cmd_to_cmd (cmd_to_proto_cmd c) ≡ c)
    × ((t : CommandType) → cmd_to_proto_cmd (proto_cmd_to_cmd t) ≡ t)
cmd_to_proto_cmd-number = (
  same_number,
  λ t.
      sym (same_number (proto_cmd_to_cmd t))
      ∙ ap number_of_type (cmd_to_proto_cmd-proto_cmd_to_cmd t),
  proto_cmd_to_cmd-cmd_to_proto_cmd,
  cmd_to_proto_cmd-proto_cmd_to_cmd,
)

-- Every channel that a message names survives the way to the program and back.
channel_to_proto_channel-proto_channel_to_channel :
    (p : ProtoChannel) → channel_to_proto_channel (proto_channel_to_channel p) ≡ p
unfolding proto_channel_to_channel channel_to_proto_channel
channel_to_proto_channel-proto_channel_to_channel proto_sch1 = refl
channel_to_proto_channel-proto_channel_to_channel _ = refl
