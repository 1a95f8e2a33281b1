-- ===== src/Scheduler/Wire/Tests/Turns.antt =====
-- One turn of the time advance on the stream of the channel's tests.
use omnetpp_federate.Prelude.{ℕ, ◌≡◌, refl, some, List, [], ◌∷◌, ◌++◌, true, false, arith}
use omnetpp_federate.Prelude.Int.{pos}
use omnetpp_federate.Channel.Types.{cmd_advance_time}
use omnetpp_federate.Channel.Tests.{
  Stream, sockets, sockets-StreamLaws, codec, codec-CommandLaws, decode_time,
}
use omnetpp_federate.Channel.Write.{framed}
use omnetpp_federate.Scheduler.Simulation.{Event}
use omnetpp_federate.Scheduler.{Scheduler}
use omnetpp_federate.Scheduler.Tests.{Fes, kernel, kernel-KernelLaws, kernel-LiveLaws, junk, beacon}
use omnetpp_federate.Scheduler.Take.{taken, take_next_event}
use omnetpp_federate.Scheduler.Wire.Scripts.{Request, update, send, script, answers, insert_events}
use omnetpp_federate.Scheduler.Wire.Turns.{question, take_next_event-script}
use omnetpp_federate.Scheduler.Wire.Openings.{take_next_event-first}
use omnetpp_federate.Scheduler.Wire.Tests.{wire, frame}

-- A node is added and a message sent; then 5 ns are granted.
abbrev requests : List Request
requests = update (3 ∷ []) ∷ send (4 ∷ 4 ∷ []) ∷ []

abbrev scripted : List ℕ
scripted =
    script sockets codec requests
      (frame cmd_advance_time ++ (framed sockets codec (0 ∷ 5 ∷ []) ++ (9 ∷ [])))

-- One event at 5 ns, granted up to 1 ns.
abbrev asking : Scheduler ℕ Fes Stream
asking = record {
  ambassador_federate = (scripted, []);
  federate_ambassador = ([], []);
  start_time = 0;
  stop_time = 9000;
  current_max_sim_time = 1000;
  time_advancing = true;
  fes = beacon ∷ [];
  mgmt = some (pos 1);
  run_ended = false;
}

abbrev filled : Fes
filled = insert_events kernel codec junk (pos 1) requests (beacon ∷ [])

take_next_event-script_example :
    (first : Event ℕ ℕ) × (t : Scheduler ℕ Fes Stream) × (take_next_event kernel wire junk 1000 5
        asking
      ≡ taken first t)
    × (kernel.peek_first filled ≡ some first)
    × (t.fes ≡ (kernel.remove_first filled).1)
    × (t.current_max_sim_time ≡ 5000)
    × (t.ambassador_federate.0 ≡ 9 ∷ [])
    × (t.ambassador_federate.1 ≡ [] ++ answers sockets codec requests)
    × (t.federate_ambassador.1 ≡ [] ++ question kernel sockets codec 5000 1000)
unfolding decode_time
take_next_event-script_example =
    take_next_event-script kernel sockets codec sockets-StreamLaws codec-CommandLaws
      (λ host port s. (pos 0, s)) (λ s. s) (λ s. s) 0 junk kernel-KernelLaws kernel-LiveLaws 1000 3
      asking beacon (pos 1) requests (0 ∷ 5 ∷ []) (9 ∷ []) refl (refl, tt) refl refl refl refl
      (omega arith, (omega arith, tt)) (omega arith) refl refl (omega arith)

-- The same stream behind the hand-shake.
abbrev opening : Scheduler ℕ Fes Stream
opening = record asking { time_advancing = false }

take_next_event-first_example :
    (first : Event ℕ ℕ) × (t : Scheduler ℕ Fes Stream) × (take_next_event kernel wire junk 1000 4
        opening
      ≡ taken first t)
    × (kernel.peek_first filled ≡ some first)
    × (t.fes ≡ (kernel.remove_first filled).1)
    × (t.current_max_sim_time ≡ 5000)
    × (t.ambassador_federate.0 ≡ 9 ∷ [])
    × (t.ambassador_federate.1 ≡ [] ++ answers sockets codec requests)
    × (t.federate_ambassador ≡ ([], []))
unfolding decode_time
take_next_event-first_example =
    take_next_event-first kernel sockets codec sockets-StreamLaws codec-CommandLaws
      (λ host port s. (pos 0, s)) (λ s. s) (λ s. s) 0 junk kernel-KernelLaws kernel-LiveLaws 1000 3
      opening (pos 1) requests (0 ∷ 5 ∷ []) (9 ∷ []) refl (refl, tt) refl refl
      (omega arith, (omega arith, tt)) (omega arith) refl refl (omega arith)
