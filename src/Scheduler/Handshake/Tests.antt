-- ===== src/Scheduler/Handshake/Tests.antt =====
-- The hand-shake on the kernel of the scheduler's tests and the stream of the channel's.
use Prim.Native.String.{String}
use omnetpp_federate.Prelude.{ℕ, ◌≡◌, refl, some, false, List, [], ◌∷◌, ◌++◌, arith}
use omnetpp_federate.Prelude.Int.{ℤ, pos}
use omnetpp_federate.Channel.Types.{Cmd, cmd_init, cmd_end, cmd_success, cmd_shut_down}
use omnetpp_federate.Channel.Write.{framed}
use omnetpp_federate.Channel.Convert.{cmd_to_proto_cmd}
use omnetpp_federate.Channel.Tests.{Stream, sockets, sockets-StreamLaws, codec, codec-CommandLaws}
use omnetpp_federate.Scheduler.{Scheduler, Config, connect_to_ambassador}
use omnetpp_federate.Channel.Interface.{client_server_channel}
use omnetpp_federate.Scheduler.Tests.{Fes, kernel, junk, early}
use omnetpp_federate.Scheduler.Handshake.{connect_to_ambassador-init, connect_to_ambassador-end}

abbrev frame : Cmd → List ℕ
frame cmd = framed sockets codec (codec.serialize_command (cmd_to_proto_cmd cmd))

-- The ports are free, and the peer has sent the given bytes by the time it connects.
abbrev prepare : String → ℕ → Stream → ℤ × Stream
prepare host port s = (pos port, s)

abbrev conf : Config
conf = record { host = "localhost"; port = pos 4999; cmdport = pos 4998 }

abbrev idle : Scheduler ℕ Fes Stream
idle = record {
  ambassador_federate = ([], []);
  federate_ambassador = ([], []);
  start_time = 0;
  stop_time = 0;
  current_max_sim_time = 0;
  time_advancing = false;
  fes = early.fes;
  mgmt = some (pos 1);
  run_ended = false;
}

abbrev begun : List ℕ → Scheduler ℕ Fes Stream
begun bytes =
    connect_to_ambassador kernel (client_server_channel prepare (λ s. s) (λ s. s) sockets codec 0)
      junk conf ([], []) (bytes, []) idle

-- The ambassador starts the federate, or it shuts it down at once.
abbrev started : Scheduler ℕ Fes Stream
started = begun (frame cmd_init ++ (framed sockets codec (0 ∷ 5 ∷ []) ++ (9 ∷ [])))

abbrev stopped : Scheduler ℕ Fes Stream
stopped = begun (frame cmd_shut_down ++ (9 ∷ []))

connect_to_ambassador-init_example :
    (started.federate_ambassador.1 ≡ frame cmd_init ++ framed sockets codec [])
    × (started.start_time ≡ 0)
    × (started.stop_time ≡ 0)
    × (started.current_max_sim_time ≡ started.start_time)
    × (started.ambassador_federate.0 ≡ 9 ∷ [])
    × (started.ambassador_federate.1 ≡ frame cmd_success)
connect_to_ambassador-init_example =
    connect_to_ambassador-init kernel sockets codec sockets-StreamLaws codec-CommandLaws prepare
      (λ s. s) (λ s. s) 0 junk conf ([], [])
      (frame cmd_init ++ (framed sockets codec (0 ∷ 5 ∷ []) ++ (9 ∷ [])), []) idle (0 ∷ 5 ∷ [])
      (9 ∷ []) (omega arith) refl

connect_to_ambassador-end_example :
    (stopped.federate_ambassador.1 ≡ frame cmd_init ++ framed sockets codec [])
    × (stopped.start_time ≡ 0)
    × (stopped.stop_time ≡ 0)
    × (stopped.current_max_sim_time ≡ 0)
    × (stopped.ambassador_federate.0 ≡ 9 ∷ [])
    × (stopped.ambassador_federate.1 ≡ frame cmd_end)
connect_to_ambassador-end_example =
    connect_to_ambassador-end kernel sockets codec sockets-StreamLaws codec-CommandLaws prepare
      (λ s. s) (λ s. s) 0 junk conf ([], []) (frame cmd_shut_down ++ (9 ∷ []), []) idle
      cmd_shut_down (9 ∷ []) (λ e. absurd cc) refl
