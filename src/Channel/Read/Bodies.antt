-- ===== src/Channel/Read/Bodies.antt =====
-- The readers of src/util/ClientServerChannel.cc on a frame that is there in full: what they return,
-- what is left to be read, and what they send.
use omnetpp_federate.Prelude.{ℕ, ◌^◌, ◌<◌, ◌≡◌, ◌∙◌, refl, ap, List, ◌++◌, length, arith, ==_iff}
use omnetpp_federate.Prelude.Int.{pos}
use omnetpp_federate.Channel.Types.{
  Cmd, cmd_success, InitReturn, InitMessage, UpdateNodeReturn, ConfigMessage, SendMessage,
}
use omnetpp_federate.Channel.Convert.{
  proto_cmd_to_cmd, cmd_to_proto_cmd, proto_cmd_to_cmd-cmd_to_proto_cmd,
}
use omnetpp_federate.Channel.System.{Sockets, Codec, StreamLaws, CommandLaws}
use omnetpp_federate.Channel.Varint.{read_varint_prefix}
use omnetpp_federate.Channel.Varint.Format.{IsVarint, value_of}
use omnetpp_federate.Channel.Varint.Sent.{read_varint_prefix-sent}
use omnetpp_federate.Channel.Write.{command_frame, framed, write_command}
use omnetpp_federate.Channel.Read.{
  fill_update, read_command_body, command_of_prefix, read_command, init_of_prefix, read_init,
  update_of_prefix, read_update_node, time_of_prefix, read_time_message,
}
use omnetpp_federate.Channel.Read.Messages.{
  fill_config, config_of_prefix, read_configuration_message, fill_send, send_of_prefix,
  read_send_message,
}
use omnetpp_federate.Channel.Read.Framing.{
  recv_body, whole_buffer, frame_prefix, frame-IsBody, of_size,
}

module _ {D S : Type 0} (os : Sockets S) (codec : Codec D) (stream : StreamLaws os)
    (laws : CommandLaws IsVarint value_of codec) (junk : ℕ) where
  open stream use {pending, sent}

  body-command :
      (s : S) (body rest : List ℕ)
      → pending s ≡ body ++ rest
      → 0 < length body
      → ((read_command_body os codec junk (length body) s).0
          ≡ proto_cmd_to_cmd (codec.parse_command body))
        × (pending (read_command_body os codec junk (length body) s).1 ≡ rest)
        × (sent (read_command_body os codec junk (length body) s).1 ≡ sent s)
  unfolding read_command_body
  body-command s body rest e filled =
      rw
        (
          (recv_body os codec stream laws junk s body rest e).0,
          whole_buffer os codec stream laws junk body,
        )
        (ground (
          arith,
          recv_body os codec stream laws junk s body rest e,
          stream.recv-sent (length body) s,
        ))

  -- `readCommand` on a command's frame: the command, the stream behind it, and nothing sent.
  read_command-framed :
      (s : S) (body rest : List ℕ)
      → 0 < length body
      → length body < 128 ^ 4
      → pending s ≡ framed os codec body ++ rest
      → ((read_command os codec junk s).0 ≡ proto_cmd_to_cmd (codec.parse_command body))
        × (pending (read_command os codec junk s).1 ≡ rest)
        × (sent (read_command os codec junk s).1 ≡ sent s)
  unfolding read_command command_of_prefix
  read_command-framed s body rest filled short e =
      let (found, left) = frame_prefix os codec stream laws junk s body rest short e in
      let (read, behind, quiet) =
        body-command (read_varint_prefix os junk s).1 body rest left filled in
      rw
        (of_size (command_of_prefix os codec junk) (length body) (read_varint_prefix os junk s)
          found)
        (read, behind, quiet ∙ read_varint_prefix-sent os stream junk s)

  pub read_command-command_frame :
      (s : S) (cmd : Cmd) (rest : List ℕ)
      → pending s ≡ command_frame os codec cmd ++ rest
      → ((read_command os codec junk s).0 ≡ cmd)
        × (pending (read_command os codec junk s).1 ≡ rest)
        × (sent (read_command os codec junk s).1 ≡ sent s)
  read_command-command_frame s cmd rest e =
      let (filled, short) = laws.command_size (cmd_to_proto_cmd cmd) in
      let (read, behind, quiet) =
        read_command-framed s (codec.serialize_command (cmd_to_proto_cmd cmd)) rest filled short
          e in
      (
        read
            ∙ ap proto_cmd_to_cmd (laws.parse-serialize (cmd_to_proto_cmd cmd))
            ∙ proto_cmd_to_cmd-cmd_to_proto_cmd cmd,
        behind,
        quiet,
      )

  module _ (s : S) (body rest : List ℕ) (short : length body < 128 ^ 4)
      (e : pending s ≡ framed os codec body ++ rest) where
    pub read_time_message-framed :
        ((read_time_message os codec junk s).0 ≡ (codec.parse_time body).time)
        × (pending (read_time_message os codec junk s).1 ≡ rest)
        × (sent (read_time_message os codec junk s).1 ≡ sent s)
    unfolding read_time_message time_of_prefix
    read_time_message-framed =
        let (found, (buffer, counted, behind, quiet)) =
          frame-IsBody os codec stream laws junk s body rest short e in
        rw
          (of_size (time_of_prefix os codec junk) (length body) (read_varint_prefix os junk s)
            found)
          (ap (λ b. (codec.parse_time b).time) buffer, behind, quiet)

    pub read_update_node-framed :
        (ret : UpdateNodeReturn D)
        → ((read_update_node os codec junk ret s).0 ≡ pos 0)
          × ((read_update_node os codec junk ret s).1 ≡ fill_update ret (codec.parse_update body))
          × (pending (read_update_node os codec junk ret s).2 ≡ rest)
          × (sent (read_update_node os codec junk ret s).2 ≡ sent s)
    unfolding read_update_node update_of_prefix
    read_update_node-framed ret =
        let (found, (buffer, counted, behind, quiet)) =
          frame-IsBody os codec stream laws junk s body rest short e in
        rw
          (
            of_size (update_of_prefix os codec junk ret) (length body)
                (read_varint_prefix os junk s) found,
            counted,
            (==_iff (length body) (length body)).1 refl,
          )
          (refl, ap (λ b. fill_update ret (codec.parse_update b)) buffer, behind, quiet)

    -- The struct that holds the message.
    abbrev init_of : InitMessage → InitReturn
    init_of m = record { start_time = m.start_time; end_time = m.end_time }

    pub read_init-framed :
        (ret : InitReturn)
        → ((read_init os codec junk ret s).1 ≡ init_of (codec.parse_init body))
          × (pending (read_init os codec junk ret s).2 ≡ rest)
          × (sent (read_init os codec junk ret s).2 ≡ sent s)
    unfolding read_init init_of_prefix
    read_init-framed ret =
        let (found, (buffer, counted, behind, quiet)) =
          frame-IsBody os codec stream laws junk s body rest short e in
        rw
          (of_size (init_of_prefix os codec junk ret) (length body) (read_varint_prefix os junk s)
            found)
          (ap (λ b. init_of (codec.parse_init b)) buffer, behind, quiet)

    -- The acknowledgement as it is sent.
    abbrev pub success : List ℕ
    success = framed os codec (codec.serialize_command (cmd_to_proto_cmd cmd_success))

    pub read_send_message-framed :
        (ret : SendMessage)
        → ((read_send_message os codec junk ret s).1 ≡ fill_send ret (codec.parse_send body))
          × (pending (read_send_message os codec junk ret s).2 ≡ rest)
          × (sent (read_send_message os codec junk ret s).2 ≡ sent s ++ success)
    unfolding read_send_message send_of_prefix write_command
    read_send_message-framed ret =
        let (found, (buffer, counted, behind, quiet)) =
          frame-IsBody os codec stream laws junk s body rest short e in
        rw
          (of_size (send_of_prefix os codec junk ret) (length body) (read_varint_prefix os junk s)
            found)
          (
            ap (λ b. fill_send ret (codec.parse_send b)) buffer,
            stream.send-pending success _ ∙ behind,
            stream.send-sent success _ ∙ ap (λ l. l ++ success) quiet,
          )

    pub read_configuration_message-framed :
        (ret : ConfigMessage D)
        → ((read_configuration_message os codec junk ret s).1
            ≡ fill_config ret (codec.parse_configure body))
          × (pending (read_configuration_message os codec junk ret s).2 ≡ rest)
          × (sent (read_configuration_message os codec junk ret s).2 ≡ sent s ++ success)
    unfolding read_configuration_message config_of_prefix write_command
    read_configuration_message-framed ret =
        let (found, (buffer, counted, behind, quiet)) =
          frame-IsBody os codec stream laws junk s body rest short e in
        rw
          (of_size (config_of_prefix os codec junk ret) (length body) (read_varint_prefix os junk s)
            found)
          (
            ap (λ b. fill_config ret (codec.parse_configure b)) buffer,
            stream.send-pending success _ ∙ behind,
            stream.send-sent success _ ∙ ap (λ l. l ++ success) quiet,
          )
