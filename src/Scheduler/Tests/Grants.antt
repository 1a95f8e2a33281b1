-- ===== src/Scheduler/Tests/Grants.antt =====
-- Time advances, with and without a grant.
use omnetpp_federate.Prelude.{ℕ, ◌≡◌, refl, true, false, some, List, [], ◌∷◌, arith}
use omnetpp_federate.Prelude.Int.{pos}
use omnetpp_federate.Channel.Types.{cmd_advance_time, cmd_next_event, cmd_end}
use omnetpp_federate.Scheduler.Simulation.{Event}
use omnetpp_federate.Scheduler.{
  Scheduler, receive_interactions, dispatch, process_shut_down, process_advance_time,
  end_time_advance, report_next_event,
}
use omnetpp_federate.Scheduler.Take.{taken, take_next_event}
use omnetpp_federate.Scheduler.Protocol.{TakenTalked, take_next_event-Talked}
use omnetpp_federate.Scheduler.Grant.{WithinGrant, take_next_event-WithinGrant}
use omnetpp_federate.Scheduler.Progress.{
  Waits, granted, waited, asked, take_next_event-granted, take_next_event-beyond_grant,
}
use omnetpp_federate.Scheduler.Tests.{
  Fes, Item, beacon, early, junk, kernel, kernel-KernelLaws, kernel-LiveLaws, late, place, scripted,
  shut, a_cmd, a_time,
}

take_next_event-WithinGrant_example :
    WithinGrant kernel (take_next_event kernel scripted junk 1000 9 early)
take_next_event-WithinGrant_example =
    take_next_event-WithinGrant kernel kernel-KernelLaws kernel-LiveLaws scripted junk 1000 9 early
      refl (refl, tt) refl

waits : Waits kernel scripted junk 1 (asked kernel scripted 1000 5000 early) late
unfolding receive_interactions dispatch process_shut_down process_advance_time end_time_advance
    report_next_event place
waits =
    waited
      {t = record late {
        ambassador_federate = a_cmd cmd_advance_time ∷ a_time (pos 5) ∷ [];
        current_max_sim_time = 1000;
        time_advancing = false;
      }}
      refl refl (granted refl refl)

take_next_event-granted_example :
    (first : Event ℕ ℕ) × (some shut ≡ some first)
    × (take_next_event kernel scripted junk 1000 4 early
        ≡ taken first (record late { fes = beacon ∷ [] }))
    × (late.federate_ambassador
        ≡ a_cmd cmd_next_event ∷ a_time (pos 5000) ∷ a_cmd cmd_end ∷ a_time (pos 1000) ∷ [])
take_next_event-granted_example =
    take_next_event-granted kernel scripted junk kernel-KernelLaws kernel-LiveLaws 1000 2 1 early
      late beacon refl (refl, tt) refl refl refl waits refl (omega arith)

-- The grant is closed, the event at 5 ns is waiting, and the ambassador grants 1 ns.
abbrev closed : Scheduler ℕ Fes (List Item)
closed = record early {
  ambassador_federate = a_cmd cmd_advance_time ∷ a_time (pos 1) ∷ [];
  time_advancing = false;
}

take_next_event-beyond_grant_example :
    (take_next_event kernel scripted junk 1000 2 closed
      ≡ taken beacon (record closed { ambassador_federate = []; time_advancing = true; fes = [] }))
    × ¬ WithinGrant kernel (take_next_event kernel scripted junk 1000 2 closed)
unfolding receive_interactions dispatch process_advance_time
take_next_event-beyond_grant_example =
    take_next_event-beyond_grant kernel scripted junk kernel-KernelLaws kernel-LiveLaws 1000 0
      closed (record closed { ambassador_federate = []; time_advancing = true }) beacon refl refl
      refl refl refl (refl, tt) refl refl

take_next_event-Talked_example :
    TakenTalked kernel scripted junk 1000 early (take_next_event kernel scripted junk 1000 9 early)
take_next_event-Talked_example = take_next_event-Talked kernel scripted junk 1000 9 early
