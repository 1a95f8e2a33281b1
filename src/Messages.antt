-- ===== src/Messages.antt =====
-- The OMNeT++ messages that the federate's modules exchange: src/msg/*.msg.
-- A `double` is a value of the parameter `D`, an `inet::Ipv4Address` is its 32-bit number.
use omnetpp_federate.Prelude.{ℕ, Bool, List}
use omnetpp_federate.Prelude.Int.{ℤ}

pub record Coord (D : Type 0) : Type 0 where
  pub x : D
  pub y : D
  pub z : D

pub data MobilityCommandType : Type 0 where
  move_nodes add_nodes add_rsu_nodes remove_nodes : MobilityCommandType

pub record MosaicMobilityCmd (D : Type 0) : Type 0 where
  pub cmd_type : MobilityCommandType
  pub node_id : List ℤ
  pub position : List (Coord D)

-- `COMMUNICATION_CMD_SEND_MESSAGE` and `CONFIGURATION_CMD_CONF_RADIO`, the only values of their types.
pub data CommunicationCommandType : Type 0 where
  send_message : CommunicationCommandType

pub data ConfigurationCommandType : Type 0 where
  conf_radio : ConfigurationCommandType

pub record MosaicCommunicationCmd : Type 0 where
  pub node_id : ℤ
  pub channel_id : ℤ
  pub msg_id : ℤ
  pub length : ℤ
  pub ttl : ℤ
  pub dest_addr : ℕ
  pub cmd_type : CommunicationCommandType

pub record MosaicConfigurationCmd (D : Type 0) : Type 0 where
  pub msg_id : ℤ
  pub node_id : ℤ
  pub num_radios : ℕ
  pub cmd_type : ConfigurationCommandType
  pub turned_on0 : Bool
  pub ip0 : ℕ
  pub subnet0 : ℕ
  pub power0 : D
  pub numchannels0 : ℕ
  pub channel00 : ℤ
  pub channel01 : ℤ
  pub turned_on1 : Bool
  pub ip1 : ℕ
  pub subnet1 : ℕ
  pub power1 : D
  pub numchannels1 : ℕ
  pub channel10 : ℤ
  pub channel11 : ℤ

pub record MosaicAppPacket : Type 0 where
  pub node_id : ℤ
  pub msg_id : ℤ
  pub length : ℤ
  pub channel_id : ℤ
  pub dest_addr : ℕ
