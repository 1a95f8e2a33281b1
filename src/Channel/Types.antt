-- ===== src/Channel/Types.antt =====
-- The enums and structs of src/util/ClientServerChannel.h and the messages of
-- ClientServerChannelMessages.proto. An `int` or `int64_t` is an integer, a `uint32_t` a number.
use omnetpp_federate.Prelude.{ℕ, Bool, List}
use omnetpp_federate.Prelude.Int.{ℤ}

-- `enum CMD`
pub data Cmd : Type 0 where
  cmd_undef : Cmd
  cmd_init : Cmd
  cmd_shut_down : Cmd
  cmd_update_node : Cmd
  cmd_remove_node : Cmd
  cmd_advance_time : Cmd
  cmd_next_event : Cmd
  cmd_msg_recv : Cmd
  cmd_msg_send : Cmd
  cmd_conf_radio : Cmd
  cmd_end : Cmd
  cmd_success : Cmd

-- `CommandMessage.CommandType`; a parsed message holds no other value.
pub data CommandType : Type 0 where
  undef init shut_down update_node remove_node advance_time : CommandType
  next_event msg_recv msg_send conf_radio end success : CommandType

-- `enum RADIO_CHANNEL`, with the values that a cast from `int` can give it besides.
pub data RadioChannel : Type 0 where
  sch1 sch2 sch3 cch sch4 sch5 sch6 undef_channel : RadioChannel
  unnamed_channel : ℤ → RadioChannel

-- `RadioChannel` of the .proto file
pub data ProtoChannel : Type 0 where
  proto_sch1 proto_sch2 proto_sch3 proto_cch : ProtoChannel
  proto_sch4 proto_sch5 proto_sch6 proto_undef : ProtoChannel

-- `enum RADIO_NUMBER` and `ConfigureRadioMessage.RadioNumber`
pub data RadioNumber : Type 0 where
  no_radio single_radio dual_radio : RadioNumber

-- `enum CHANNEL_MODE` and `RadioConfiguration.RadioMode`
pub data ChannelMode : Type 0 where
  single_channel dual_channel : ChannelMode

-- `enum UPDATE_NODE_TYPE`; an indeterminate variable may hold none of the four values.
pub data UpdateNodeType : Type 0 where
  update_add_rsu update_add_vehicle update_move_node update_remove_node : UpdateNodeType
  update_unnamed : UpdateNodeType

-- `UpdateNode.UpdateType`
pub data UpdateType : Type 0 where
  add_rsu add_vehicle move_node remove_node : UpdateType

pub record InitReturn : Type 0 where
  pub start_time : ℤ
  pub end_time : ℤ

pub record NodeData (D : Type 0) : Type 0 where
  pub id : ℤ
  pub x : D
  pub y : D

pub record RadioConfig (D : Type 0) : Type 0 where
  pub turned_on : Bool
  pub ip_address : ℕ
  pub subnet : ℕ
  pub tx_power : D
  pub channelmode : ChannelMode
  pub primary_channel : RadioChannel
  pub secondary_channel : RadioChannel

pub record ConfigMessage (D : Type 0) : Type 0 where
  pub time : ℤ
  pub msg_id : ℤ
  pub node_id : ℤ
  pub num_radios : RadioNumber
  pub primary_radio : RadioConfig D
  pub secondary_radio : RadioConfig D

pub record UpdateNodeReturn (D : Type 0) : Type 0 where
  pub type : UpdateNodeType
  pub time : ℤ
  pub properties : List (NodeData D)

pub record TopoAddress : Type 0 where
  pub ip_address : ℕ
  pub ttl : ℤ

pub record SendMessage : Type 0 where
  pub time : ℤ
  pub node_id : ℤ
  pub channel_id : RadioChannel
  pub message_id : ℤ
  pub length : ℤ
  pub topo_address : TopoAddress

-- The messages of the .proto file
pub record InitMessage : Type 0 where
  pub start_time : ℤ
  pub end_time : ℤ

pub record PortExchange : Type 0 where
  pub port_number : ℕ

pub record TimeMessage : Type 0 where
  pub time : ℤ

pub record UpdateNode (D : Type 0) : Type 0 where
  pub update_type : UpdateType
  pub time : ℤ
  pub properties : List (NodeData D)

pub record RadioConfiguration (D : Type 0) : Type 0 where
  pub receiving_messages : Bool
  pub ip_address : ℕ
  pub subnet_address : ℕ
  pub transmission_power : D
  pub radio_mode : ChannelMode
  pub primary_radio_channel : ProtoChannel
  pub secondary_radio_channel : ProtoChannel

pub record ConfigureRadioMessage (D : Type 0) : Type 0 where
  pub time : ℤ
  pub message_id : ℕ
  pub external_id : ℕ
  pub radio_number : RadioNumber
  pub primary_radio_configuration : RadioConfiguration D
  pub secondary_radio_configuration : RadioConfiguration D

-- The `oneof address`.
pub record ProtoTopoAddress : Type 0 where
  pub ip_address : ℕ
  pub ttl : ℕ

pub record GeoRectangleAddress (D : Type 0) : Type 0 where
  pub ip_address : ℕ
  a_x : D
  a_y : D
  b_x : D
  b_y : D

pub record GeoCircleAddress (D : Type 0) : Type 0 where
  pub ip_address : ℕ
  center_x : D
  center_y : D
  radius : D

pub data Address (D : Type 0) : Type 0 where
  topo : ProtoTopoAddress → Address D
  rectangle : GeoRectangleAddress D → Address D
  circle : GeoCircleAddress D → Address D
  no_address : Address D

pub record SendMessageMessage (D : Type 0) : Type 0 where
  pub time : ℤ
  pub node_id : ℕ
  pub channel_id : ProtoChannel
  pub message_id : ℕ
  pub length : ℕ
  pub address : Address D

pub record ReceiveMessage : Type 0 where
  pub time : ℤ
  pub node_id : ℕ
  pub channel_id : ProtoChannel
  pub message_id : ℕ
  pub rssi : ℤ
