-- ===== src/Channel/Print.antt =====
-- What src/util/ClientServerChannel.cc prints: the names of its enums, an IP address, and the bytes of a
-- buffer. The text of an address or a buffer is a list of character codes.
pub mod Addresses
use Prim.Native.String.{String}
use omnetpp_federate.Prelude.{
  ℕ, zero, suc, ◌+◌, ◌-◌, ◌/◌, ◌%◌, ◌^◌, List, [], ◌∷◌, ◌++◌, length, ltb, ◌==◌, if◌then◌else◌,
}
use omnetpp_federate.Channel.Types.{
  Cmd, cmd_undef, cmd_init, cmd_shut_down, cmd_update_node, cmd_remove_node, cmd_advance_time,
  cmd_next_event, cmd_msg_recv, cmd_msg_send, cmd_conf_radio, cmd_end, cmd_success, UpdateNodeType,
  update_add_rsu, update_add_vehicle, update_move_node, update_remove_node, update_unnamed,
  RadioNumber, no_radio, single_radio, dual_radio, ChannelMode, single_channel, dual_channel,
  RadioChannel, sch1, sch2, sch3, cch, sch4, sch5, sch6, undef_channel, unnamed_channel,
}

unfoldable print_cmd : Cmd → String
print_cmd cmd_undef = "CMD undefined"
print_cmd cmd_init = "CMD init"
print_cmd cmd_shut_down = "CMD shut down"
print_cmd cmd_update_node = "CMD update node"
print_cmd cmd_remove_node = "CMD remove node"
print_cmd cmd_advance_time = "CMD advance time"
print_cmd cmd_next_event = "CMD next event"
print_cmd cmd_msg_recv = "CMD message receive"
print_cmd cmd_msg_send = "CMD message send"
print_cmd cmd_conf_radio = "CMD conf radio"
print_cmd cmd_end = "CMD end"
print_cmd cmd_success = "CMD success"

-- A value without a name prints nothing.
print_update_node_type : UpdateNodeType → String
print_update_node_type update_add_rsu = "UPDATE add rsu"
print_update_node_type update_add_vehicle = "UPDATE add vehicle"
print_update_node_type update_move_node = "UPDATE move node"
print_update_node_type update_remove_node = "UPDATE remove node"
print_update_node_type update_unnamed = ""

print_radio_number : RadioNumber → String
print_radio_number no_radio = "RADIO_NUMBER no radio"
print_radio_number single_radio = "RADIO_NUMBER single radio"
print_radio_number dual_radio = "RADIO_NUMBER dual radio"

print_channel_mode : ChannelMode → String
print_channel_mode single_channel = "CHANNEL_MODE single channel"
print_channel_mode dual_channel = "CHANNEL_MODE dual channel"

print_radio_channel : RadioChannel → String
print_radio_channel sch1 = "RADIO_CHANNEL sch1"
print_radio_channel sch2 = "RADIO_CHANNEL sch2"
print_radio_channel sch3 = "RADIO_CHANNEL sch3"
print_radio_channel sch4 = "RADIO_CHANNEL sch4"
print_radio_channel sch5 = "RADIO_CHANNEL sch5"
print_radio_channel sch6 = "RADIO_CHANNEL sch6"
print_radio_channel cch = "RADIO_CHANNEL cch"
print_radio_channel undef_channel = "RADIO_CHANNEL undef"
print_radio_channel (unnamed_channel n) = ""

-- `std::to_string` of a byte.
pub byte_to_string : ℕ → List ℕ
byte_to_string b =
    if ltb b 10
    then (48 + b) ∷ []
    else if ltb b 100
    then (48 + b / 10) ∷ (48 + b % 10) ∷ []
    else (48 + b / 100) ∷ (48 + b / 10 % 10) ∷ (48 + b % 10) ∷ []

pub uint32_to_ip : ℕ → List ℕ
unfolding byte_to_string
uint32_to_ip ip =
    byte_to_string (ip / 2 ^ 24 % 256)
    ++ (b'.' ∷ byte_to_string (ip / 2 ^ 16 % 256)
        ++ (b'.' ∷ byte_to_string (ip / 2 ^ 8 % 256) ++ (b'.' ∷ byte_to_string (ip % 256))))

-- A number on a stream in decimal; the fuel is the number itself, which each round divides by ten.
unfoldable decimal : ℕ → ℕ → List ℕ
decimal zero n = (48 + n) ∷ []
decimal (suc fuel) n =
    let front = decimal fuel (n / 10) in
    if ltb n 10 then (48 + n) ∷ [] else front ++ ((48 + n % 10) ∷ [])

-- A `char` that is cast to `int`: it is signed.
unfoldable char_to_string : ℕ → List ℕ
unfolding byte_to_string
char_to_string c = if ltb c 128 then byte_to_string c else b'-' ∷ byte_to_string (256 - c)

-- The loop, from the place `i`: a new line behind every sixteenth byte.
unfoldable bytes_text : ℕ → List ℕ → List ℕ
unfolding char_to_string
bytes_text i [] = []
bytes_text i (c ∷ cs) =
    char_to_string c ++ ((if (i + 1) % 16 == 0 then 10 else 32) ∷ bytes_text (i + 1) cs)

-- `std::endl` is a new line.
unfoldable debug_byte_array : List ℕ → List ℕ
unfolding decimal bytes_text
debug_byte_array buffer =
    codes_of_size
    ++ (decimal (length buffer) (length buffer)
        ++ (codes_of_bytes
            ++ ((if ltb 16 (length buffer) then 10 ∷ [] else [])
                ++ (bytes_text 0 buffer ++ (10 ∷ [])))))
  where
    codes_of_size : List ℕ
    codes_of_size = b's' ∷ b'i' ∷ b'z' ∷ b'e' ∷ b':' ∷ b' ' ∷ []

    codes_of_bytes : List ℕ
    codes_of_bytes = b',' ∷ b' ' ∷ b'b' ∷ b'y' ∷ b't' ∷ b'e' ∷ b's' ∷ b':' ∷ b' ' ∷ []
