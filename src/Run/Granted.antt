-- ===== src/Run/Granted.antt =====
-- Conservative synchronisation over a whole run of src/mgmt/MosaicEventScheduler.cc and
-- src/mgmt/MosaicScenarioManager.cc.
use omnetpp_federate.Prelude.{◌≡◌, ◌∙◌, ap, subst, true, false, inl, inr}
use omnetpp_federate.Prelude.Outcome.{Then}
use omnetpp_federate.Channel.Interface.{Channel}
use omnetpp_federate.Scheduler.Simulation.{Kernel, KernelLaws, LiveLaws, Event, whole_ns}
use omnetpp_federate.Scheduler.{Scheduler, Junk}
use omnetpp_federate.Scheduler.Grant.{WithinGrant, take_next_event-WithinGrant}
use omnetpp_federate.Scenario.{Manager, Creator}
use omnetpp_federate.Scenario.Reports.Told.{Told, handle_message-Told}
use omnetpp_federate.Run.{managed, elsewhere, Run, stay, go}

module _ {D Q T F C : Type 0} (k : Kernel D T F) (laws : KernelLaws k) (live : LiveLaws k)
    (ch : Channel D C) (junk : Junk D) (create : Creator D Q) where
  open live use {Live}

  abbrev World : Type 0
  World = Manager D Q (Scheduler T F C)

  -- Whenever OMNeT++ asks for an event, the FES has one, and its events are live.
  abbrev IsSupplied : {s t : World} → Run k ch junk create s t → Type 0
  IsSupplied stay = Unit {0}
  IsSupplied (go (managed {s = s} now fuel e u f taken_e for_it handled) run) =
      (k.is_empty s.sched.fes ≡ false) × Live s.sched.fes × IsSupplied run
  IsSupplied (go (elsewhere {s = s} now fuel e u f taken_e not_for_it) run) =
      (k.is_empty s.sched.fes ≡ false) × Live s.sched.fes × IsSupplied run

  -- Every event of the run is, in whole nanoseconds, no later than the time granted last.
  abbrev pub IsGranted : {s t : World} → Run k ch junk create s t → Type 0
  IsGranted stay = Unit {0}
  IsGranted (go (managed now fuel e u f taken_e for_it handled) run) =
      (k.gt (whole_ns k e.arrival_time) u.current_max_sim_time ≡ false) × IsGranted run
  IsGranted (go (elsewhere now fuel e u f taken_e not_for_it) run) =
      (k.gt (whole_ns k e.arrival_time) u.current_max_sim_time ≡ false) × IsGranted run

  still_open :
      (e : Event D T) (u v : Scheduler T F C)
      → u.time_advancing ≡ true
      → Told k ch e u v
      → v.time_advancing ≡ true
  still_open e u v opened (inl same) = ap (λ w. w.time_advancing) same ∙ opened
  still_open e u v opened (inr (p, q, is)) = ap (λ w. w.time_advancing) is ∙ opened

  -- A run that starts under an open grant, with live events in the FES whenever OMNeT++ asks for one:
  -- every event that is handled in it, by the manager or by another module, is, in whole nanoseconds,
  -- no later than the time that the ambassador has granted last by then.
  pub Run-IsGranted :
      {s t : World} (run : Run k ch junk create s t)
      → s.sched.time_advancing ≡ true
      → IsSupplied run
      → IsGranted run
  Run-IsGranted stay opened supplied = tt
  Run-IsGranted (go (managed {s = s} {t = t} now fuel e u f taken_e for_it handled) run) opened
        (filled, alive, supplied) =
      let (within, opened_u) =
        subst (WithinGrant k) taken_e
          (take_next_event-WithinGrant k laws live ch junk now fuel s.sched filled alive opened) in
      let told : Told k ch e u t.sched =
        subst (λ o. Then o (λ w. Told k ch e u w.sched)) handled
          (handle_message-Told k ch create e (record s { sched = u })) in
      (within, Run-IsGranted run (still_open e u t.sched opened_u told) supplied)
  Run-IsGranted (go (elsewhere {s = s} now fuel e u f taken_e not_for_it) run) opened
        (filled, alive, supplied) =
      let (within, opened_u) =
        subst (WithinGrant k) taken_e
          (take_next_event-WithinGrant k laws live ch junk now fuel s.sched filled alive opened) in
      (within, Run-IsGranted run opened_u supplied)
