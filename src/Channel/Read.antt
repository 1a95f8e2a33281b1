-- ===== src/Channel/Read.antt =====
-- The readers of src/util/ClientServerChannel.cc. A struct that the C++ code fills by reference is
-- an argument and a part of the result; `junk` is what an uninitialised byte holds.
pub mod Framing
pub mod Bodies
pub mod Frames
pub mod Delivered
pub mod Retry
pub mod Tests
pub mod Messages
use omnetpp_federate.Prelude.{
  ℕ, zero, suc, ◌-◌, ◌^◌, not, ◌&&◌, List, ◌++◌, length, drop, replicate, ltb, ◌==◌, if◌then◌else◌,
}
use omnetpp_federate.Prelude.Int.{ℤ, pos, negsuc, ltb_ℤ}
use omnetpp_federate.Channel.Types.{
  Cmd, cmd_undef, InitReturn, UpdateNodeReturn, UpdateNodeType, update_add_rsu, update_add_vehicle,
  update_move_node, update_remove_node, UpdateType, UpdateNode,
}
use omnetpp_federate.Channel.Convert.{proto_cmd_to_cmd}
use omnetpp_federate.Channel.System.{Sockets, Codec, Received, bytes, failed}
use omnetpp_federate.Channel.Varint.{Prefix, size, read_varint_prefix}

-- The result of `recv` as the `size_t` that it is stored in.
abbrev pub count : Received → ℕ
count (bytes bs) = length bs
count failed = 2 ^ 64 - 1

-- The buffer after `recv` has stored into its front.
abbrev pub stored_in : List ℕ → Received → List ℕ
stored_in buffer (bytes bs) = bs ++ drop (length bs) buffer
stored_in buffer failed = buffer

abbrev pub update_type_of : UpdateType → UpdateNodeType
update_type_of UpdateType.add_rsu = update_add_rsu
update_type_of UpdateType.add_vehicle = update_add_vehicle
update_type_of UpdateType.move_node = update_move_node
update_type_of UpdateType.remove_node = update_remove_node

unfoldable pub fill_update : {D : Type 0} → UpdateNodeReturn D → UpdateNode D → UpdateNodeReturn D
fill_update ret message = record {
  type = update_type_of message.update_type;
  time = message.time;
  properties = ret.properties ++ message.properties;
}

module _ {D S : Type 0} (os : Sockets S) (codec : Codec D) (junk : ℕ) where
  -- The do loop around `poll`: at most `retries` rounds, the rest of which is returned.
  pub poll_loop : ℕ → S → ℕ × S
  poll_loop zero s = (zero, s)
  poll_loop (suc retries) s =
      let (res, s') = os.poll s in
      let again = poll_loop retries s' in
      if retries == 0 then (retries, s') else (if ltb_ℤ res (pos 1) then again else (retries, s'))

  -- The command in a complete buffer.
  pub parse_command : ℕ → List ℕ → Cmd
  parse_command n buffer =
      if ltb 0 n then proto_cmd_to_cmd (codec.parse_command buffer) else cmd_undef

  pub finish_command : ℕ → List ℕ → ℕ → S → Cmd × S
  unfolding parse_command
  finish_command n buffer res s = (if not (res == n) then cmd_undef else parse_command n buffer, s)

  -- The second attempt, after a short read.
  pub retry_command : ℕ → List ℕ → S → Cmd × S
  unfolding poll_loop finish_command
  retry_command n buffer s =
      let (retries, s1) = poll_loop 3 s in
      let (r, s2) = os.recv n s1 in
      if not (retries == 3) && ltb (count r) 1
      then (cmd_undef, s2)
      else finish_command n (stored_in buffer r) (count r) s2

  pub read_command_body : ℕ → S → Cmd × S
  unfolding retry_command finish_command
  read_command_body n s =
      let (r, s') = os.recv n s in
      let buffer = stored_in (replicate n 0) r in
      if ltb 0 n && not (count r == n)
      then retry_command n buffer s'
      else finish_command n buffer (count r) s'

  pub command_of_prefix : Prefix × S → Cmd × S
  unfolding read_command_body
  command_of_prefix (size n, s) = read_command_body n s
  command_of_prefix (_, s) = (cmd_undef, s)

  pub read_command : S → Cmd × S
  unfolding command_of_prefix
  read_command s = command_of_prefix (read_varint_prefix os junk s)

  -- The buffer that the other readers parse, and the count.
  pub read_buffer : ℕ → S → List ℕ × ℕ × S
  read_buffer n s = let (r, s') = os.recv n s in (stored_in (replicate n 0) r, count r, s')

  pub init_of_prefix : InitReturn → Prefix × S → ℤ × InitReturn × S
  unfolding read_buffer
  init_of_prefix ret (size n, s) =
      let (buffer, _, s') = read_buffer n s in
      let message = codec.parse_init buffer in
      (pos 0, record ret { start_time = message.start_time; end_time = message.end_time }, s')
  init_of_prefix ret (_, s) = (negsuc 0, ret, s)

  pub read_init : InitReturn → S → ℤ × InitReturn × S
  unfolding init_of_prefix
  read_init ret s = init_of_prefix ret (read_varint_prefix os junk s)

  pub update_of_prefix : UpdateNodeReturn D → Prefix × S → ℤ × UpdateNodeReturn D × S
  unfolding read_buffer fill_update
  update_of_prefix ret (size n, s) =
      let (buffer, count, s') = read_buffer n s in
      if not (n == count)
      then (negsuc 0, ret, s')
      else (pos 0, fill_update ret (codec.parse_update buffer), s')
  update_of_prefix ret (_, s) = (negsuc 0, ret, s)

  pub read_update_node : UpdateNodeReturn D → S → ℤ × UpdateNodeReturn D × S
  unfolding update_of_prefix
  read_update_node ret s = update_of_prefix ret (read_varint_prefix os junk s)

  pub time_of_prefix : Prefix × S → ℤ × S
  unfolding read_buffer
  time_of_prefix (size n, s) =
      let (buffer, _, s') = read_buffer n s in ((codec.parse_time buffer).time, s')
  time_of_prefix (_, s) = (negsuc 0, s)

  pub read_time_message : S → ℤ × S
  unfolding time_of_prefix
  read_time_message s = time_of_prefix (read_varint_prefix os junk s)
