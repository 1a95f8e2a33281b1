-- ===== src/Scheduler/Wire/Tests.antt =====
-- The theorems of `Wire` on the kernel of the scheduler's tests and the stream of the channel's.
pub mod Turns
use omnetpp_federate.Prelude.{ℕ, refl, true, false, some, List, [], ◌∷◌, ◌++◌, arith}
use omnetpp_federate.Prelude.Int.{pos}
use omnetpp_federate.Prelude.Outcome.{Ends}
use omnetpp_federate.Channel.Types.{Cmd, cmd_success, cmd_msg_send}
use omnetpp_federate.Channel.Read.Messages.{fill_send}
use omnetpp_federate.Channel.Write.{framed}
use omnetpp_federate.Channel.Convert.{cmd_to_proto_cmd}
use omnetpp_federate.Channel.Interface.{Channel, client_server_channel}
use omnetpp_federate.Channel.Tests.{Stream, sockets, sockets-StreamLaws, codec, codec-CommandLaws}
use omnetpp_federate.Scheduler.Commands.{communication_payload}
use omnetpp_federate.Scheduler.{Scheduler, receive_interactions}
use omnetpp_federate.Scheduler.Tests.{Fes, kernel, junk, early}
use omnetpp_federate.Scheduler.Wire.{
  HasCommand, IsScheduled, event_for, receive_interactions-msg_send,
}

-- The calls that set up the sockets are not made any more.
abbrev pub wire : Channel ℕ Stream
wire = client_server_channel (λ host port s. (pos 0, s)) (λ s. s) (λ s. s) sockets codec 0

abbrev pub frame : Cmd → List ℕ
frame cmd = framed sockets codec (codec.serialize_command (cmd_to_proto_cmd cmd))

-- A command of the ambassador with a body of two bytes, and one byte behind it.
abbrev waiting : Cmd → Scheduler ℕ Fes Stream
waiting cmd = record {
  ambassador_federate = (frame cmd ++ (framed sockets codec (0 ∷ 5 ∷ []) ++ (9 ∷ [])), []);
  federate_ambassador = ([], []);
  start_time = 0;
  stop_time = 9000;
  current_max_sim_time = 1000;
  time_advancing = true;
  fes = early.fes;
  mgmt = some (pos 1);
  run_ended = false;
}

abbrev Waiting : Cmd → Type 0
Waiting cmd =
    HasCommand kernel sockets codec sockets-StreamLaws codec-CommandLaws (λ host port s. (pos 0, s))
      (λ s. s) (λ s. s) 0 junk (waiting cmd) cmd (0 ∷ 5 ∷ []) (9 ∷ [])

waits : (cmd : Cmd) → Waiting cmd
waits cmd = record { bytes = refl; short = omega arith }

receive_interactions-msg_send_example :
    Ends (receive_interactions kernel wire junk (waiting cmd_msg_send)) (λ t.
      IsScheduled kernel sockets codec sockets-StreamLaws codec-CommandLaws
        (λ host port s. (pos 0, s))
        (λ s. s)
        (λ s. s)
        0
        junk
        (waiting cmd_msg_send)
        t
        (event_for
          (pos 1)
          (communication_payload (fill_send junk.send (codec.parse_send (0 ∷ 5 ∷ []))))
          0)
        (9 ∷ [])
        (frame cmd_success ++ frame cmd_success))
receive_interactions-msg_send_example =
    receive_interactions-msg_send kernel sockets codec sockets-StreamLaws codec-CommandLaws
      (λ host port s. (pos 0, s)) (λ s. s) (λ s. s) 0 junk (waiting cmd_msg_send) (0 ∷ 5 ∷ [])
      (9 ∷ []) (pos 1) (waits cmd_msg_send) refl
