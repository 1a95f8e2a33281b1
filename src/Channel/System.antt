-- ===== src/Channel/System.antt =====
-- What the channel calls and this repository does not implement: the socket calls of the operating
-- system and the protobuf library. The laws are in `StreamLaws` and `CommandLaws`.
use omnetpp_federate.Prelude.{ℕ, ◌^◌, ◌≡◌, ◌≤◌, ◌<◌, List, take, drop, length, ◌++◌}
use omnetpp_federate.Prelude.Int.{ℤ}
use omnetpp_federate.Channel.Types.{
  CommandType, InitMessage, TimeMessage, PortExchange, UpdateNode, ConfigureRadioMessage,
  SendMessageMessage, ReceiveMessage,
}

-- The result of `recv`: the bytes that it stored, or -1.
pub data Received : Type 0 where
  bytes : List ℕ → Received
  failed : Received

-- A connected socket of type `S`, seen from this side.
pub record Sockets (S : Type 0) : Type 0 where
  pub recv : ℕ → S → Received × S
  pub poll : S → ℤ × S
  pub send : List ℕ → S → S

-- The protobuf library: a parser for each message (of a buffer that does not hold one it gives what
-- `ParseFromCodedStream` leaves in the message object), the serialisers, and `WriteVarint32`.
pub record Codec (D : Type 0) : Type 0 where
  pub write_varint : ℕ → List ℕ
  pub parse_command : List ℕ → CommandType
  pub serialize_command : CommandType → List ℕ
  pub parse_init : List ℕ → InitMessage
  pub parse_update : List ℕ → UpdateNode D
  pub parse_time : List ℕ → TimeMessage
  pub serialize_time : TimeMessage → List ℕ
  pub parse_configure : List ℕ → ConfigureRadioMessage D
  pub parse_send : List ℕ → SendMessageMessage D
  pub serialize_receive : ReceiveMessage → List ℕ
  pub serialize_port : PortExchange → List ℕ

-- A blocking stream socket with bytes at hand: `recv` hands over as many as it is asked for if they
-- are there, in their order, and `send` puts all bytes on the way to the peer.
pub record StreamLaws {S : Type 0} (os : Sockets S) : Type 0 where
  pub pending : S → List ℕ
  pub sent : S → List ℕ
  pub recv-bytes :
      (n : ℕ) (s : S) → n ≤ length (pending s) → (os.recv n s).0 ≡ bytes (take n (pending s))
  pub recv-pending :
      (n : ℕ) (s : S) → n ≤ length (pending s) → pending (os.recv n s).1 ≡ drop n (pending s)
  pub recv-sent : (n : ℕ) (s : S) → sent (os.recv n s).1 ≡ sent s
  pub send-sent : (bs : List ℕ) (s : S) → sent (os.send bs s) ≡ sent s ++ bs
  pub send-pending : (bs : List ℕ) (s : S) → pending (os.send bs s) ≡ pending s

-- What the channel needs of protobuf's lengths and of the command and the time messages: the documented base-128
-- format with as few groups as will do, and a parser that reads back what was serialised.
pub record CommandLaws {D : Type 0} (IsVarint : List ℕ → Type 0) (value_of : List ℕ → ℕ)
    (codec : Codec D) : Type 0 where
  pub varint-IsVarint : (n : ℕ) → IsVarint (codec.write_varint n)
  pub value_of-varint : (n : ℕ) → value_of (codec.write_varint n) ≡ n
  pub varint_short : (n : ℕ) → n < 128 ^ 4 → length (codec.write_varint n) ≤ 4
  pub parse-serialize_time : (t : TimeMessage) → codec.parse_time (codec.serialize_time t) ≡ t
  pub time_size : (t : TimeMessage) → length (codec.serialize_time t) < 128 ^ 4
  pub parse-serialize : (t : CommandType) → codec.parse_command (codec.serialize_command t) ≡ t
  pub command_size :
      (t : CommandType)
      → (0 < length (codec.serialize_command t)) × (length (codec.serialize_command t) < 128 ^ 4)
