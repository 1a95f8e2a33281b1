-- ===== src/Scheduler/Handshake.antt =====
-- `connectToAmbassador` of src/mgmt/MosaicEventScheduler.cc over the channels of
-- src/util/ClientServerChannel.cc: what goes over the two streams, and what the scheduler is then.
pub mod Tests
use Prim.Native.String.{String}
use omnetpp_federate.Prelude.{ℕ, ◌^◌, ◌<◌, ◌≡◌, ◌≢◌, ◌∙◌, refl, ap, List, ◌++◌, length}
use omnetpp_federate.Prelude.Int.{ℤ, to_u32}
use mathlib.Core.List.{append_assoc}
use omnetpp_federate.Channel.Types.{Cmd, cmd_undef, cmd_init, cmd_end, cmd_success, InitReturn}
use omnetpp_federate.Channel.System.{Sockets, Codec, StreamLaws, CommandLaws}
use omnetpp_federate.Channel.Varint.Format.{IsVarint, value_of}
use omnetpp_federate.Channel.Write.{command_frame, framed, write_command, write_port}
use omnetpp_federate.Channel.Read.{read_command}
use omnetpp_federate.Channel.Read.Bodies.{read_command-command_frame, read_init-framed}
use omnetpp_federate.Channel.Interface.{Channel, client_server_channel}
use omnetpp_federate.Scheduler.Simulation.{Kernel}
use omnetpp_federate.Scheduler.{Scheduler, Junk, Config, connect_to_ambassador}

module _ {D T F S : Type 0} (k : Kernel D T F) (os : Sockets S) (codec : Codec D)
    (stream : StreamLaws os) (laws : CommandLaws IsVarint value_of codec)
    (prepare : String → ℕ → S → ℤ × S) (accept close : S → S) (byte : ℕ) (junk : Junk D)
    (conf : Config) (fresh_out fresh_in : S) (s : Scheduler T F S) where
  open stream use {pending, sent}

  abbrev pub channel : Channel D S
  channel = client_server_channel prepare accept close os codec byte

  -- The two streams as soon as the ambassador has connected, and the port of the second.
  abbrev out_stream : S
  out_stream = accept (prepare conf.host (to_u32 conf.port) fresh_out).1

  abbrev in_stream : S
  in_stream = accept (prepare conf.host (to_u32 conf.cmdport) fresh_in).1

  abbrev command_port : ℕ
  command_port = to_u32 (prepare conf.host (to_u32 conf.cmdport) fresh_in).0

  abbrev pub connected : Scheduler T F S
  connected = connect_to_ambassador k channel junk conf fresh_out fresh_in s

  -- INIT and the port, each in its frame.
  abbrev announced : List ℕ
  announced =
      command_frame os codec cmd_init
      ++ framed os codec (codec.serialize_port (record { port_number = command_port }))

  abbrev Outgoing : S → Type 0
  Outgoing c = sent c ≡ sent out_stream ++ announced

  announce :
      Outgoing (write_port os codec command_port (write_command os codec cmd_init out_stream))
  unfolding write_port write_command
  announce =
      stream.send-sent
        (framed os codec (codec.serialize_port (record { port_number = command_port }))) _
      ∙ ap
          (λ (l : List ℕ).
            l ++ framed os codec (codec.serialize_port (record { port_number = command_port })))
          (stream.send-sent (command_frame os codec cmd_init) out_stream)
      ∙ append_assoc (sent out_stream) (command_frame os codec cmd_init) _

  greeted :
      (cmd : Cmd) (rest : List ℕ)
      → pending in_stream ≡ command_frame os codec cmd ++ rest
      → ((read_command os codec byte in_stream).0 ≡ cmd)
        × (pending (read_command os codec byte in_stream).1 ≡ rest)
        × (sent (read_command os codec byte in_stream).1 ≡ sent in_stream)
  greeted = read_command-command_frame os codec stream laws byte in_stream

  -- The federate announces INIT and its second port on the first stream. If the ambassador's answer is
  -- INIT with a message, then the start and the stop time are those of the message, events are granted
  -- up to the start, and SUCCESS goes back on the second stream, which is read as far as the message.
  pub connect_to_ambassador-init :
      (body rest : List ℕ)
      → length body < 128 ^ 4
      → pending in_stream ≡ command_frame os codec cmd_init ++ (framed os codec body ++ rest)
      → (sent connected.federate_ambassador ≡ sent out_stream ++ announced)
        × (connected.start_time ≡ k.of_ns (codec.parse_init body).start_time)
        × (connected.stop_time ≡ k.of_ns (codec.parse_init body).end_time)
        × (connected.current_max_sim_time ≡ connected.start_time)
        × (pending connected.ambassador_federate ≡ rest)
        × (sent connected.ambassador_federate
            ≡ sent in_stream ++ command_frame os codec cmd_success)
  unfolding connect_to_ambassador write_command
  connect_to_ambassador-init body rest short e =
      let (read, behind, quiet) = greeted cmd_init (framed os codec body ++ rest) e in
      let (message, left, silent) =
        read_init-framed os codec stream laws byte (read_command os codec byte in_stream).1 body
          rest short behind junk.init in
      rw (connect_to_ambassador, read)
        (
          announce,
          ap (λ (m : InitReturn). k.of_ns m.start_time) message,
          ap (λ (m : InitReturn). k.of_ns m.end_time) message,
          refl,
          stream.send-pending (command_frame os codec cmd_success) _ ∙ left,
          stream.send-sent (command_frame os codec cmd_success) _
              ∙ ap (λ (l : List ℕ). l ++ command_frame os codec cmd_success) (silent ∙ quiet),
        )

  abbrev Refused : List ℕ → Scheduler T F S → Type 0
  Refused rest t =
      (sent t.federate_ambassador ≡ sent out_stream ++ announced)
      × (t.start_time ≡ s.start_time)
      × (t.stop_time ≡ s.stop_time)
      × (t.current_max_sim_time ≡ s.current_max_sim_time)
      × (pending t.ambassador_federate ≡ rest)
      × (sent t.ambassador_federate ≡ sent in_stream ++ command_frame os codec cmd_end)

  -- The state in which END has been sent.
  abbrev ended : Scheduler T F S
  ended = record s {
    federate_ambassador =
        write_port os codec command_port (write_command os codec cmd_init out_stream);
    ambassador_federate = write_command os codec cmd_end (read_command os codec byte in_stream).1;
  }

  refused :
      (rest : List ℕ)
      → pending (read_command os codec byte in_stream).1 ≡ rest
      → sent (read_command os codec byte in_stream).1 ≡ sent in_stream
      → Refused rest ended
  unfolding write_command
  refused rest behind quiet = (
    announce,
    refl,
    refl,
    refl,
    stream.send-pending (command_frame os codec cmd_end) _ ∙ behind,
    stream.send-sent (command_frame os codec cmd_end) _
        ∙ ap (λ (l : List ℕ). l ++ command_frame os codec cmd_end) quiet,
  )

  -- If the ambassador's answer is any other command, then END goes back and the times are as before;
  -- the method returns all the same.
  pub connect_to_ambassador-end :
      (cmd : Cmd) (rest : List ℕ)
      → cmd ≢ cmd_init
      → pending in_stream ≡ command_frame os codec cmd ++ rest
      → (sent connected.federate_ambassador ≡ sent out_stream ++ announced)
        × (connected.start_time ≡ s.start_time)
        × (connected.stop_time ≡ s.stop_time)
        × (connected.current_max_sim_time ≡ s.current_max_sim_time)
        × (pending connected.ambassador_federate ≡ rest)
        × (sent connected.ambassador_federate ≡ sent in_stream ++ command_frame os codec cmd_end)
  unfolding connect_to_ambassador
  connect_to_ambassador-end cmd rest ne e =
      let (read, behind, quiet) = greeted cmd rest e in
      by_command cmd ne read (refused rest behind quiet)
    where
      by_command :
          (c : Cmd)
          → c ≢ cmd_init
          → (read_command os codec byte in_stream).0 ≡ c
          → Refused rest ended
          → Refused rest connected
      by_command cmd_init ne read r = absurd (ne refl)
      by_command cmd_undef ne read r = rw (connect_to_ambassador, read) r
      by_command _ ne read r = rw (connect_to_ambassador, read) r
