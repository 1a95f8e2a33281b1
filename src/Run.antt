-- ===== src/Run.antt =====
-- The run of a simulation: OMNeT++ takes one event after another from the scheduler of
-- src/mgmt/MosaicEventScheduler.cc and has the module that it is for handle it. The events for
-- src/mgmt/MosaicScenarioManager.cc are handled as there; what other modules do reaches these two only
-- by the future event set.
pub mod Scenes
pub mod Words
pub mod Granted
pub mod Tests
use omnetpp_federate.Prelude.{ℕ, ◌≡◌, ◌≢◌, Bool, true, some, inl, inr, subst}
use omnetpp_federate.Prelude.Outcome.{done, Then}
use omnetpp_federate.Messages.{MosaicAppPacket}
use omnetpp_federate.Channel.Interface.{Channel}
use omnetpp_federate.Scheduler.Simulation.{Kernel, Event, whole_ns, app_packet}
use omnetpp_federate.Scheduler.{Scheduler, Junk}
use omnetpp_federate.Scheduler.Take.{taken, take_next_event}
use omnetpp_federate.Scheduler.Protocol.{Talk, TakenTalked, take_next_event-Talked}
use omnetpp_federate.Scheduler.Opening.{TakenOpen, take_next_event-TakenOpen}
use omnetpp_federate.Scenario.{Manager, Creator}
use omnetpp_federate.Scenario.Handlers.{handle_message}
use omnetpp_federate.Scenario.Managed.{IsManaged}
use omnetpp_federate.Scenario.Invariant.{handle_message-IsManaged}
use omnetpp_federate.Scenario.Reports.Told.{Told, report_of, handle_message-Told}

-- What the ambassador sees of a run. Beside the time advances of the protocol there are the reports
-- of packets, and these come under an open grant.
pub data Session {D T F C : Type 0} (k : Kernel D T F) (ch : Channel D C)
    : Bool → C → Bool → C → Type 0 where
  over : {b : Bool} {c : C} → Session k ch b c b c
  advance :
      {b b1 b2 : Bool} {c c1 c2 : C} (cur : T)
      → Talk k ch cur b c b1 c1
      → Session k ch b1 c1 b2 c2
      → Session k ch b c b2 c2
  report :
      {b : Bool} {c c2 : C} (e : Event D T) (p : MosaicAppPacket)
      → e.payload ≡ app_packet p
      → Session k ch true (report_of k ch e p c) b c2
      → Session k ch true c b c2

module _ {D Q T F C : Type 0} (k : Kernel D T F) (ch : Channel D C) (junk : Junk D)
    (create : Creator D Q) where
  abbrev pub World : Type 0
  World = Manager D Q (Scheduler T F C)

  -- The world with another future event set.
  abbrev pub with_fes : World → F → World
  with_fes s f = record s { sched = record s.sched { fes = f } }

  -- The next event is for the manager, whose handler returns, or for another module. Either may change
  -- the future event set by OMNeT++: the manager's `send`, `scheduleStart` and `callInitialize` put
  -- events into it and `deleteModule` takes some away, so that any set may stand behind a step.
  pub data Step : World → World → Type 0 where
    managed :
        {s t : World} (now : T) (fuel : ℕ) (e : Event D T) (u : Scheduler T F C) (f : F)
        → take_next_event k ch junk now fuel s.sched ≡ taken e u
        → u.mgmt ≡ some e.arrival_module
        → handle_message k ch create e (record s { sched = u }) ≡ done t
        → Step s (with_fes t f)
    elsewhere :
        {s : World} (now : T) (fuel : ℕ) (e : Event D T) (u : Scheduler T F C) (f : F)
        → take_next_event k ch junk now fuel s.sched ≡ taken e u
        → u.mgmt ≢ some e.arrival_module
        → Step s (with_fes (record s { sched = u }) f)

  pub data Run : World → World → Type 0 where
    stay : {s : World} → Run s s
    go : {s t u : World} → Step s t → Run t u → Run s u

  other_sched : (s : World) (u : Scheduler T F C) → IsManaged s → IsManaged (record s { sched = u })
  other_sched s u h i n l =
      let v = h i n l in record { wired = v.wired; tagged = v.tagged; started = v.started }

  Step-IsManaged : {s t : World} → Step s t → IsManaged s → IsManaged t
  Step-IsManaged {s = s} (managed {t = t} now fuel e u f taken_e for_it handled) h =
      other_sched t (record t.sched { fes = f })
        (subst (λ o. Then o IsManaged) handled
          (handle_message-IsManaged k ch create e (record s { sched = u }) (other_sched s u h)))
  Step-IsManaged {s = s} (elsewhere now fuel e u f taken_e not_for_it) h =
      other_sched s (record u { fes = f }) h

  -- Whatever the ambassador sends and whatever the nodes do: a run from a state in which every node is
  -- initialised, tagged with its id and has its gates only leads to such states.
  pub Run-IsManaged : {s t : World} → Run s t → IsManaged s → IsManaged t
  Run-IsManaged stay h = h
  Run-IsManaged (go step run) h = Run-IsManaged run (Step-IsManaged step h)

  abbrev pub HeardIn : World → World → Type 0
  HeardIn s t =
      Session k ch s.sched.time_advancing s.sched.federate_ambassador t.sched.time_advancing
        t.sched.federate_ambassador

  taken_before :
      (s t : Scheduler T F C) (now : T) (fuel : ℕ) (e : Event D T)
      → take_next_event k ch junk now fuel s ≡ taken e t
      → Talk k ch
          (whole_ns k now)
          s.time_advancing
          s.federate_ambassador
          t.time_advancing
          t.federate_ambassador
        × (t.time_advancing ≡ true)
  taken_before s t now fuel e p = (
    subst (TakenTalked k ch junk (whole_ns k now) s) p
        (take_next_event-Talked k ch junk now fuel s),
    subst (TakenOpen k ch junk now) p (take_next_event-TakenOpen k ch junk now fuel s),
  )

  -- The reports of the handler in front of the rest of the session.
  told_before :
      (e : Event D T) (u v : Scheduler T F C) {b : Bool} {c : C}
      → u.time_advancing ≡ true
      → Told k ch e u v
      → Session k ch v.time_advancing v.federate_ambassador b c
      → Session k ch u.time_advancing u.federate_ambassador b c
  told_before e u v {b = b} {c = c} open_grant (inl same) rest =
      subst (λ w. Session k ch w.time_advancing w.federate_ambassador b c) same rest
  told_before e u v {b = b} {c = c} open_grant (inr (p, q, is)) rest =
      let behind : Session k ch u.time_advancing (report_of k ch e p u.federate_ambassador) b c =
        subst (λ w. Session k ch w.time_advancing w.federate_ambassador b c) is rest in
      rw open_grant (report e p q (rw⁻¹ open_grant behind))

  Step-Session : {s t : World} (u : World) → Step s t → HeardIn t u → HeardIn s u
  Step-Session {s = s} u (managed {t = t} now fuel e v f taken_e for_it handled) rest =
      let (talk, open_grant) = taken_before s.sched v now fuel e taken_e in
      let told : Told k ch e v t.sched =
        subst (λ o. Then o (λ w. Told k ch e v w.sched)) handled
          (handle_message-Told k ch create e (record s { sched = v })) in
      advance (whole_ns k now) talk (told_before e v t.sched open_grant told rest)
  Step-Session {s = s} u (elsewhere now fuel e v f taken_e not_for_it) rest =
      advance (whole_ns k now) (taken_before s.sched v now fuel e taken_e).0 rest

  -- The ambassador sees the protocol of the whole run: under an open grant the federate may report
  -- packets, until it ends the time advance at some time, after asking for at most one time; then it
  -- writes nothing before a command of the ambassador has opened the grant again.
  pub Run-Session : {s t : World} → Run s t → HeardIn s t
  Run-Session stay = over
  Run-Session {t = u} (go step run) = Step-Session u step (Run-Session run)
