-- ===== src/Channel/Interface.antt =====
-- The public methods of `ClientServerChannel` (src/util/ClientServerChannel.h) as an interface that
-- the scheduler takes, and the class as an implementation of it.
use Prim.Native.String.{String}
use omnetpp_federate.Prelude.{ℕ}
use omnetpp_federate.Prelude.Int.{ℤ}
use omnetpp_federate.Channel.Types.{
  Cmd, RadioChannel, InitReturn, UpdateNodeReturn, ConfigMessage, SendMessage,
}
use omnetpp_federate.Channel.System.{Sockets, Codec}
use omnetpp_federate.Channel.Write
use omnetpp_federate.Channel.Read
use omnetpp_federate.Channel.Read.Messages

-- A channel in state `C`. A reader's `int` result comes first, then the struct that it fills.
pub record Channel (D C : Type 0) : Type 0 where
  pub prepare_connection : String → ℕ → C → ℤ × C
  pub connect : C → C
  pub destroy : C → C
  pub read_command : C → Cmd × C
  pub read_init : InitReturn → C → ℤ × InitReturn × C
  pub read_update_node : UpdateNodeReturn D → C → ℤ × UpdateNodeReturn D × C
  pub read_configuration_message : ConfigMessage D → C → ℤ × ConfigMessage D × C
  pub read_send_message : SendMessage → C → ℤ × SendMessage × C
  pub read_time_message : C → ℤ × C
  pub write_command : Cmd → C → C
  pub write_port : ℕ → C → C
  pub write_time_message : ℤ → C → C
  pub write_receive_message : ℤ → ℤ → ℤ → RadioChannel → ℤ → C → C

-- The first three only make calls of the operating system (`Channel/Connect`): they are `prepare`,
-- `accept` and `close`.
abbrev pub client_server_channel :
    {D S : Type 0}
    → (String → ℕ → S → ℤ × S)
    → (S → S)
    → (S → S)
    → Sockets S
    → Codec D
    → ℕ
    → Channel D S
client_server_channel prepare accept close os codec junk = record {
  prepare_connection = prepare;
  connect = accept;
  destroy = close;
  read_command = Read.read_command os codec junk;
  read_init = Read.read_init os codec junk;
  read_update_node = Read.read_update_node os codec junk;
  read_configuration_message = Messages.read_configuration_message os codec junk;
  read_send_message = Messages.read_send_message os codec junk;
  read_time_message = Read.read_time_message os codec junk;
  write_command = Write.write_command os codec;
  write_port = Write.write_port os codec;
  write_time_message = Write.write_time_message os codec;
  write_receive_message = Write.write_receive_message os codec;
}
