-- ===== src/Scheduler/Protocol.antt =====
-- The protocol of time advances that `takeNextEvent` of src/mgmt/MosaicEventScheduler.cc follows on
-- the channel to the ambassador, as a state machine with two phases.
use omnetpp_federate.Prelude.{
  ℕ, zero, suc, ◌≡◌, Bool, true, false, some, none, Option, Option-cases, Bool-cases, inl, inr,
}
use omnetpp_federate.Prelude.Outcome.{Outcome, done, stop, final}
use omnetpp_federate.Channel.Types.{cmd_end, cmd_next_event}
use omnetpp_federate.Channel.Interface.{Channel}
use omnetpp_federate.Scheduler.Simulation.{Kernel, Event, whole_ns}
use omnetpp_federate.Scheduler.{
  Scheduler, Junk, receive_interactions, end_time_advance, report_next_event,
}
use omnetpp_federate.Scheduler.Arrivals.{receive_interactions-silent}
use omnetpp_federate.Scheduler.Take.{
  Round, Taken, taken, broken, look, heard, listen, body, body-look, body-listen, again, round_on,
  round_on-again, round_on-over, loop, hand_out, deliver, enter, take_next_event,
}

-- The grant is open or closed, and the channel is in a state of type `C`. Under an open grant the
-- federate may end its time advance at `cur`, or ask for a time and then end it; that closes the
-- grant. Under a closed grant it only listens, and a command leaves the grant closed or opens it.
pub data Says {D T F C : Type 0} (k : Kernel D T F) (ch : Channel D C) (cur : T)
    : Bool → C → Bool → C → Type 0 where
  idle :
      {c : C}
      → Says k ch cur true c false
          (ch.write_time_message (k.in_ns cur) (ch.write_command cmd_end c))
  ask :
      {c : C} (t : T)
      → Says k ch cur true c false (
          ch.write_time_message (k.in_ns cur) (
            ch.write_command cmd_end
              (ch.write_time_message (k.in_ns t) (ch.write_command cmd_next_event c))))
  hear : {b : Bool} {c : C} → Says k ch cur false c b c

pub data Talk {D T F C : Type 0} (k : Kernel D T F) (ch : Channel D C) (cur : T)
    : Bool → C → Bool → C → Type 0 where
  quiet : {b : Bool} {c : C} → Talk k ch cur b c b c
  next :
      {b b1 b2 : Bool} {c c1 c2 : C}
      → Says k ch cur b c b1 c1
      → Talk k ch cur b1 c1 b2 c2
      → Talk k ch cur b c b2 c2

module _ {D T F C : Type 0} (k : Kernel D T F) (ch : Channel D C) (junk : Junk D) (cur : T) where
  Talk-trans :
      {b b1 b2 : Bool} {c c1 c2 : C}
      → Talk k ch cur b c b1 c1
      → Talk k ch cur b1 c1 b2 c2
      → Talk k ch cur b c b2 c2
  Talk-trans quiet u = u
  Talk-trans (next s t) u = next s (Talk-trans t u)

  -- From one state of the scheduler to another.
  abbrev Talked : Scheduler T F C → Scheduler T F C → Type 0
  Talked s t =
      Talk k ch cur s.time_advancing s.federate_ambassador t.time_advancing t.federate_ambassador

  abbrev Rounded : Round T F C → Round T F C → Type 0
  Rounded r q = Talked r.state q.state

  look-Talked :
      (r : Round T F C) → r.state.time_advancing ≡ true → Rounded r (final (look k ch junk cur r))
  unfolding look end_time_advance report_next_event
  look-Talked r open_grant = elim (Bool-cases (k.is_empty r.state.fes)) [
    | inl e ↦ rw (e, open_grant) (next idle quiet)
    | inr e ↦ elim (Option-cases (k.peek_first r.state.fes)) [
      | inl p ↦ rw (e, p) quiet
      | inr (x, p) ↦
          elim (Bool-cases (k.gt (whole_ns k x.arrival_time) r.state.current_max_sim_time)) [
            | inl g ↦ rw (e, p, g, open_grant) (next (ask (whole_ns k x.arrival_time)) quiet)
            | inr g ↦ rw (e, p, g) quiet
          ]
    ]
  ]

  listen-Talked :
      (r : Round T F C)
      → r.state.time_advancing ≡ false
      → Rounded r (final (listen k ch junk cur r))
  unfolding listen
  listen-Talked r closed =
      heard_out (receive_interactions k ch junk r.state)
        (receive_interactions-silent k ch junk r.state)
    where
      heard_out :
          (o : Outcome (Scheduler T F C))
          → (final o).federate_ambassador ≡ r.state.federate_ambassador
          → Rounded r (final (heard k ch junk cur r o))
      heard_out (done s) h = rw (closed, h) (next hear quiet)
      heard_out (stop e s) h = rw (closed, h) (next hear quiet)

  body-Talked : (r : Round T F C) → Rounded r (final (body k ch junk cur r))
  body-Talked r = elim (Bool-cases r.state.time_advancing) [
    | inl open_grant ↦ rw (body-look k ch junk cur r open_grant) (look-Talked r open_grant)
    | inr closed ↦ rw (body-listen k ch junk cur r closed) (listen-Talked r closed)
  ]

  round_on-Talked :
      (rest : Round T F C → Outcome (Round T F C))
      → ((r : Round T F C) → Rounded r (final (rest r)))
      → (r : Round T F C) (o : Outcome (Round T F C)) → Rounded r (final o)
      → Rounded r (final (round_on k ch junk cur rest o))
  round_on-Talked rest ih r (stop e q) t = t
  round_on-Talked rest ih r (done q) t = elim (Bool-cases (again k ch junk cur q)) [
    | inl more ↦ rw (round_on-again k ch junk cur rest q more) (Talk-trans t (ih q))
    | inr over ↦ rw (round_on-over k ch junk cur rest q over) t
  ]

  loop-Talked : (fuel : ℕ) (r : Round T F C) → Rounded r (final (loop k ch junk cur fuel r))
  unfolding loop
  loop-Talked zero r = quiet
  loop-Talked (suc fuel) r =
      round_on-Talked (loop k ch junk cur fuel) (loop-Talked fuel) r (body k ch junk cur r)
        (body-Talked r)

  abbrev pub TakenTalked : Scheduler T F C → Taken D T (Scheduler T F C) → Type 0
  TakenTalked s (taken e t) = Talked s t
  TakenTalked s (broken f t) = Talked s t

  TakenTalked-trans :
      (s t : Scheduler T F C) (o : Taken D T (Scheduler T F C))
      → Talked s t
      → TakenTalked t o
      → TakenTalked s o
  TakenTalked-trans s t (taken e u) a b = Talk-trans a b
  TakenTalked-trans s t (broken f u) a b = Talk-trans a b

  deliver-Talked :
      (retry : Scheduler T F C → Taken D T (Scheduler T F C))
      → ((s : Scheduler T F C) → TakenTalked s (retry s))
      → (r : Round T F C) (o : Outcome (Round T F C)) → Rounded r (final o)
      → TakenTalked r.state (deliver k retry o)
  unfolding deliver hand_out
  deliver-Talked retry ih r (stop e q) t = t
  deliver-Talked retry ih r (done q) t = handed (k.remove_first q.state.fes).0
    where
      left : Scheduler T F C
      left = record q.state { fes = (k.remove_first q.state.fes).1 }

      handed : (o : Option (Event D T)) → TakenTalked r.state (hand_out retry left o)
      handed none = TakenTalked-trans r.state left (retry left) t (ih left)
      handed (some e) = elim (Bool-cases e.is_stale) [
        | inl stale ↦ rw stale (TakenTalked-trans r.state left (retry left) t (ih left))
        | inr fresh ↦ rw fresh t
      ]

module _ {D T F C : Type 0} (k : Kernel D T F) (ch : Channel D C) (junk : Junk D) (now : T) where
  -- However the ambassador behaves and whatever the FES holds, all that the method has written to the
  -- channel to the ambassador are time advances of the protocol: each ends with END and closes the
  -- grant, asks for at most one time before that, and comes only after a command has opened the
  -- grant again. This holds when the method returns an event, when it fails, and after every number of
  -- rounds of a call that has not returned.
  pub take_next_event-Talked :
      (fuel : ℕ) (s : Scheduler T F C)
      → TakenTalked k ch junk (whole_ns k now) s (take_next_event k ch junk now fuel s)
  unfolding take_next_event
  take_next_event-Talked zero s = quiet
  take_next_event-Talked (suc fuel) s =
      deliver-Talked k ch junk (whole_ns k now) (take_next_event k ch junk now fuel)
        (take_next_event-Talked fuel) (enter k ch junk now s)
        (loop k ch junk (whole_ns k now) fuel (enter k ch junk now s))
        (loop-Talked k ch junk (whole_ns k now) fuel (enter k ch junk now s))
