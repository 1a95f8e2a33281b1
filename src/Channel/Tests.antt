-- ===== src/Channel/Tests.antt =====
-- The channel on a concrete stream and a concrete codec, and the channel's theorems there.
pub mod Prefixes
use native.Mathlib.Nat.{pow-suc}
use native.Mathlib.Decide.{dec_lt}
use omnetpp_federate.Prelude.{
  ℕ, zero, suc, ◌+◌, ◌/◌, ◌%◌, ◌^◌, ◌≤◌, ◌<◌, ◌≡◌, refl, List, [], ◌∷◌, ◌++◌, length, take, drop,
  ap, arith, ltb, if◌then◌else◌, false,
}
use omnetpp_federate.Prelude.Int.{ℤ, pos, negsuc}
use omnetpp_federate.Channel.Types.{
  cmd_advance_time, CommandType, undef, init, shut_down, advance_time, next_event, msg_recv,
  msg_send, conf_radio, end, success, no_radio, single_channel, proto_cch, no_address, UpdateType,
  RadioConfiguration,
}
use omnetpp_federate.Channel.Convert
use omnetpp_federate.Channel.System.{Sockets, Codec, StreamLaws, CommandLaws, bytes}
use omnetpp_federate.Channel.Varint.Format.{IsVarint, value_of}
use omnetpp_federate.Channel.Write.{write_command, write_time_message}
use omnetpp_federate.Channel.Read.{read_command, read_time_message}
use omnetpp_federate.Channel.Read.Frames.{
  read_command-write_command, read_time_message-write_time_message,
}

-- A stream of which the bytes to read and the bytes written are known.
abbrev pub Stream : Type 0
Stream = List ℕ × List ℕ

abbrev pub sockets : Sockets Stream
sockets = record {
  recv = λ n s. (bytes (take n s.0), (drop n s.0, s.1));
  poll = λ s. (pos 1, s);
  send = λ bs s. (s.0, s.1 ++ bs);
}

abbrev pub sockets-StreamLaws : StreamLaws sockets
sockets-StreamLaws = record {
  pending = λ s. s.0;
  sent = λ s. s.1;
  recv-bytes = λ n s h. refl;
  recv-pending = λ n s h. refl;
  recv-sent = λ n s. refl;
  send-sent = λ bs s. refl;
  send-pending = λ bs s. refl;
}

-- Lengths in groups of seven bits.
pub encode : ℕ → ℕ → List ℕ
encode zero n = n % 128 ∷ []
encode (suc fuel) n =
    let rest = encode fuel (n / 128) in if ltb n 128 then n ∷ [] else (128 + n % 128) ∷ rest

IsVarint-cons : (b : ℕ) (bs : List ℕ) → 128 ≤ b → b < 256 → IsVarint bs → IsVarint (b ∷ bs)
IsVarint-cons b [] lo hi v = absurd v
IsVarint-cons b (c ∷ bs) lo hi v = (lo, hi, v)

encode-IsVarint : (fuel n : ℕ) → IsVarint (encode fuel n)
unfolding encode
encode-IsVarint zero n = omega arith
encode-IsVarint (suc fuel) n = elim (dec_lt n 128) [
  | yes lt ↦ ground arith
  | no ge ↦ ground (
    arith,
    IsVarint-cons (128 + n % 128) (encode fuel (n / 128)) (omega arith) (omega arith)
        (encode-IsVarint fuel (n / 128)),
  )
]

value_of-encode : (fuel n : ℕ) → n ≤ fuel → value_of (encode fuel n) ≡ n
unfolding encode
value_of-encode zero n h = omega arith
value_of-encode (suc fuel) n h = ground (arith, value_of-encode fuel (n / 128))

encode_short : (k fuel n : ℕ) → n < 128 ^ suc k → length (encode fuel n) ≤ suc k
unfolding encode
encode_short k zero n h = omega arith
encode_short zero (suc fuel) n h = ground arith
encode_short (suc k) (suc fuel) n h =
    ground (arith, encode_short k fuel (n / 128), pow-suc 128 (suc k))

-- A command in one byte.
pub code : CommandType → ℕ
code undef = 0
code init = 1
code shut_down = 2
code CommandType.update_node = 3
code CommandType.remove_node = 4
code advance_time = 5
code next_event = 6
code msg_recv = 7
code msg_send = 8
code conf_radio = 9
code end = 10
code success = 11

-- The entry at a place, `undef` behind the last.
entry : List CommandType → ℕ → CommandType
entry [] n = undef
entry (t ∷ ts) zero = t
entry (t ∷ ts) (suc n) = entry ts n

pub decode : List ℕ → CommandType
decode [] = undef
decode (b ∷ _) =
    entry
      (undef ∷ init ∷ shut_down ∷ CommandType.update_node ∷ CommandType.remove_node ∷ advance_time
        ∷ next_event ∷ msg_recv ∷ msg_send ∷ conf_radio ∷ end ∷ success ∷ [])
      b

decode-code : (t : CommandType) → decode (code t ∷ []) ≡ t
unfolding decode code entry
decode-code undef = refl
decode-code _ = refl

-- A time: its sign and its amount.
pub encode_time : ℤ → List ℕ
encode_time (pos n) = 0 ∷ n ∷ []
encode_time (negsuc n) = 1 ∷ n ∷ []

unfoldable pub decode_time : List ℕ → ℤ
decode_time (zero ∷ n ∷ _) = pos n
decode_time (suc m ∷ n ∷ _) = negsuc n
decode_time _ = pos 0

decode_time-encode_time : (t : ℤ) → decode_time (encode_time t) ≡ t
unfolding decode_time encode_time
decode_time-encode_time (pos n) = refl
decode_time-encode_time (negsuc n) = refl

encode_time-length : (t : ℤ) → length (encode_time t) < 128 ^ 4
unfolding encode_time
encode_time-length (pos n) = omega arith
encode_time-length (negsuc n) = omega arith

abbrev plain_radio : RadioConfiguration ℕ
plain_radio = record {
  receiving_messages = false;
  ip_address = 0;
  subnet_address = 0;
  transmission_power = 0;
  radio_mode = single_channel;
  primary_radio_channel = proto_cch;
  secondary_radio_channel = proto_cch;
}

-- Of the other messages it reads and writes none.
abbrev pub codec : Codec ℕ
codec = record {
  write_varint = λ n. encode n n;
  parse_command = decode;
  serialize_command = λ t. code t ∷ [];
  parse_init = λ bs. record { start_time = pos 0; end_time = pos 0 };
  parse_update = λ bs. record { update_type = UpdateType.add_rsu; time = pos 0; properties = [] };
  parse_time = λ bs. record { time = decode_time bs };
  serialize_time = λ m. encode_time m.time;
  parse_configure = λ bs. record {
    time = pos 0;
    message_id = 0;
    external_id = 0;
    radio_number = no_radio;
    primary_radio_configuration = plain_radio;
    secondary_radio_configuration = plain_radio;
  };
  parse_send = λ bs. record {
    time = pos 0;
    node_id = 0;
    channel_id = proto_cch;
    message_id = 0;
    length = 0;
    address = no_address;
  };
  serialize_receive = λ m. [];
  serialize_port = λ p. [];
}

pub codec-CommandLaws : CommandLaws IsVarint value_of codec
codec-CommandLaws = record {
  varint-IsVarint = λ n. encode-IsVarint n n;
  value_of-varint = λ n. value_of-encode n n (omega arith);
  varint_short = λ n h. encode_short 3 n n h;
  parse-serialize_time = λ m. ap (λ (t : ℤ). record { time = t }) (decode_time-encode_time m.time);
  time_size = λ m. encode_time-length m.time;
  parse-serialize = decode-code;
  command_size = λ t. (omega arith, omega arith);
}

read_command-write_command_example :
    ((read_command sockets codec 0 (1 ∷ 5 ∷ 7 ∷ [], [])).0 ≡ cmd_advance_time)
    × ((read_command sockets codec 0 (1 ∷ 5 ∷ 7 ∷ [], [])).1.0 ≡ 7 ∷ [])
unfolding write_command Convert.cmd_to_proto_cmd encode code
read_command-write_command_example =
    read_command-write_command sockets codec sockets-StreamLaws codec-CommandLaws 0 cmd_advance_time
      ([], []) (1 ∷ 5 ∷ 7 ∷ [], []) (1 ∷ 5 ∷ []) (7 ∷ []) refl refl

read_time_message-write_time_message_example :
    ((read_time_message sockets codec 0 (2 ∷ 1 ∷ 4 ∷ 7 ∷ [], [])).0 ≡ negsuc 4)
    × ((read_time_message sockets codec 0 (2 ∷ 1 ∷ 4 ∷ 7 ∷ [], [])).1.0 ≡ 7 ∷ [])
unfolding write_time_message encode encode_time
read_time_message-write_time_message_example =
    read_time_message-write_time_message sockets codec sockets-StreamLaws codec-CommandLaws 0
      (negsuc 4) ([], []) (2 ∷ 1 ∷ 4 ∷ 7 ∷ [], []) (2 ∷ 1 ∷ 4 ∷ []) (7 ∷ []) refl refl
