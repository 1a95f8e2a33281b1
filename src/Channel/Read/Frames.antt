-- ===== src/Channel/Read/Frames.antt =====
-- What one side writes and the other side reads: `writeCommand` and `readCommand`, `writeTimeMessage`
-- and `readTimeMessage` of src/util/ClientServerChannel.cc.
use mathlib.Core.List.{append_cancel_left}
use omnetpp_federate.Prelude.{ℕ, ◌≡◌, ◌∙◌, sym, ap, List, ◌++◌}
use omnetpp_federate.Prelude.Int.{ℤ}
use omnetpp_federate.Channel.Types.{TimeMessage, Cmd}
use omnetpp_federate.Channel.Convert.{cmd_to_proto_cmd}
use omnetpp_federate.Channel.System.{Sockets, Codec, StreamLaws, CommandLaws}
use omnetpp_federate.Channel.Varint.Format.{IsVarint, value_of}
use omnetpp_federate.Channel.Write.{framed, write_command, write_time_message}
use omnetpp_federate.Channel.Read.{read_command, read_time_message}
use omnetpp_federate.Channel.Read.Bodies.{read_command-command_frame, read_time_message-framed}

module _ {D S : Type 0} (os : Sockets S) (codec : Codec D) (stream : StreamLaws os)
    (laws : CommandLaws IsVarint value_of codec) (junk : ℕ) where
  open stream use {pending, sent}

  -- What one side has written is pending at the other one.
  arrived :
      (body written rest : List ℕ) (writer reader : S)
      → sent (os.send (framed os codec body) writer) ≡ sent writer ++ written
      → pending reader ≡ written ++ rest
      → pending reader ≡ framed os codec body ++ rest
  arrived body written rest writer reader w e =
      e
      ∙ ap (λ (l : List ℕ). l ++ rest)
          (append_cancel_left (sent writer) written (framed os codec body)
            (sym w ∙ stream.send-sent (framed os codec body) writer))

  -- A command that one side writes is what the other side reads, and the stream is then at the byte
  -- behind it.
  pub read_command-write_command :
      (cmd : Cmd) (writer reader : S) (written rest : List ℕ)
      → sent (write_command os codec cmd writer) ≡ sent writer ++ written
      → pending reader ≡ written ++ rest
      → ((read_command os codec junk reader).0 ≡ cmd)
        × (pending (read_command os codec junk reader).1 ≡ rest)
  unfolding write_command
  read_command-write_command cmd writer reader written rest w e =
      let (read, behind, quiet) =
        read_command-command_frame os codec stream laws junk reader cmd rest (
          arrived (codec.serialize_command (cmd_to_proto_cmd cmd)) written rest writer reader w
            e) in
      (read, behind)

  -- A time that one side writes is what the other side reads, and the stream is then at the byte
  -- behind it.
  pub read_time_message-write_time_message :
      (time : ℤ) (writer reader : S) (written rest : List ℕ)
      → sent (write_time_message os codec time writer) ≡ sent writer ++ written
      → pending reader ≡ written ++ rest
      → ((read_time_message os codec junk reader).0 ≡ time)
        × (pending (read_time_message os codec junk reader).1 ≡ rest)
  unfolding write_time_message
  read_time_message-write_time_message time writer reader written rest w e =
      let (read, behind, quiet) =
        read_time_message-framed os codec stream laws junk reader
          (codec.serialize_time (record { time = time })) rest
          (laws.time_size (record { time = time }))
          (arrived (codec.serialize_time (record { time = time })) written rest writer reader w
            e) in
      (
        read
            ∙ ap (λ (m : TimeMessage). m.time) (laws.parse-serialize_time (record { time = time })),
        behind,
      )
