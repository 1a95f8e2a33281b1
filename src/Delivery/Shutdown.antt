-- ===== src/Delivery/Shutdown.antt =====
-- The ambassador's SHUT_DOWN, from the bytes that `receiveInteractions` of
-- src/mgmt/MosaicEventScheduler.cc reads to `finish` of src/mgmt/MosaicScenarioManager.cc.
use Prim.Native.String.{String}
use omnetpp_federate.Prelude.{ℕ, ◌≡◌, ◌∙◌, refl, ap, false, some, List, [], ◌++◌, inl, inr}
use omnetpp_federate.Prelude.Int.{ℤ}
use omnetpp_federate.Prelude.Outcome.{done, stop, end_simulation}
use omnetpp_federate.Channel.Types.{cmd_shut_down}
use omnetpp_federate.Channel.System.{Sockets, Codec, StreamLaws, CommandLaws}
use omnetpp_federate.Channel.Varint.Format.{IsVarint, value_of}
use omnetpp_federate.Channel.Write.{command_frame}
use omnetpp_federate.Channel.Interface.{Channel, client_server_channel}
use omnetpp_federate.Scheduler.Simulation.{Kernel, Event, put_back, finish}
use omnetpp_federate.Scheduler.{
  Scheduler, Junk, receive_interactions, dispatch, process_shut_down, end_run,
}
use omnetpp_federate.Scheduler.Wire.{event_for, dispatched, behind_command}
use omnetpp_federate.Scenario.{Manager, Creator}
use omnetpp_federate.Scenario.Handlers.{handle_message}
use omnetpp_federate.Scenario.Ending.{handle_message-finish}

-- The event that ends the simulation.
abbrev pub last_event : {D T : Type 0} → ℤ → T → Event D T
last_event id time = event_for id finish time

module _ {D Q T F S : Type 0} (k : Kernel D T F) (os : Sockets S) (codec : Codec D)
    (stream : StreamLaws os) (laws : CommandLaws IsVarint value_of codec)
    (prepare : String → ℕ → S → ℤ × S) (accept close : S → S) (byte : ℕ) (junk : Junk D)
    (create : Creator D Q) where
  open stream use {pending, sent}

  abbrev channel : Channel D S
  channel = client_server_channel prepare accept close os codec byte

  abbrev World : Type 0
  World = Manager D Q (Scheduler T F S)

  abbrev behind : Scheduler T F S → Scheduler T F S
  behind = behind_command k os codec stream laws prepare accept close byte junk

  -- The first finish command.
  ends :
      (e : Event D T) (s : World)
      → e.payload ≡ finish
      → s.once ≡ false
      → (t : World) × (handle_message k channel create e s ≡ stop end_simulation t)
        × (t.nodes ≡ [])
        × (t.sched ≡ end_run k channel s.sched)
  ends e s p first = elim (handle_message-finish k channel create e s p) [
    | inl (o, t, stopped, empty, over, closed) ↦ (t, stopped, empty, closed)
    | inr (again, o) ↦ cc
  ]

  -- With SHUT_DOWN on the stream, the management module known and the run not ended: `receiveInteractions`
  -- returns with one event more in the FES, at the time granted last, having read just the command and
  -- sent nothing. The manager that handles this event for the first time ends the simulation; then no
  -- node is left and both channels are destroyed.
  pub handle_message-shut_down :
      (s : World) (id : ℤ) (rest : List ℕ)
      → pending s.sched.ambassador_federate ≡ command_frame os codec cmd_shut_down ++ rest
      → s.sched.mgmt ≡ some id
      → s.once ≡ false
      → s.sched.run_ended ≡ false
      → (u : Scheduler T F S) × (receive_interactions k channel junk s.sched ≡ done u)
        × (u.fes ≡ put_back k (last_event id s.sched.current_max_sim_time) s.sched.fes)
        × (pending u.ambassador_federate ≡ rest)
        × (sent u.ambassador_federate ≡ sent s.sched.ambassador_federate)
        × (u.federate_ambassador ≡ s.sched.federate_ambassador)
        × (t : World) × (handle_message k channel create
              (last_event id s.sched.current_max_sim_time)
              (record s { sched = u })
            ≡ stop end_simulation t)
        × (t.nodes ≡ [])
        × (t.sched.ambassador_federate ≡ close u.ambassador_federate)
        × (t.sched.federate_ambassador ≡ close u.federate_ambassador)
  unfolding dispatch process_shut_down end_run
  handle_message-shut_down s id rest bytes known first running =
      let e : Event D T = last_event id s.sched.current_max_sim_time in
      let (run, left, quiet) =
        dispatched k os codec stream laws prepare accept close byte junk s.sched cmd_shut_down rest
          bytes in
      let u : Scheduler T F S = record (behind s.sched) { fes = put_back k e s.sched.fes } in
      let (t, stopped, empty, closed) = ends e (record s { sched = u }) refl first in
      (
        u,
        run ∙ rw (known) refl,
        refl,
        left,
        quiet,
        refl,
        t,
        stopped,
        empty,
        ap (λ (v : Scheduler T F S). v.ambassador_federate) closed ∙ rw (running) refl,
        ap (λ (v : Scheduler T F S). v.federate_ambassador) closed ∙ rw (running) refl,
      )
