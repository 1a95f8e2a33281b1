-- ===== src/Scheduler/Opening.antt =====
-- `takeNextEvent` of src/mgmt/MosaicEventScheduler.cc returns under an open grant only.
use omnetpp_federate.Prelude.{
  ℕ, zero, suc, ◌≡◌, Option, none, some, true, inl, inr, Bool-cases, arith,
}
use omnetpp_federate.Prelude.Outcome.{Outcome, done, stop, Then}
use omnetpp_federate.Channel.Interface.{Channel}
use omnetpp_federate.Scheduler.Simulation.{Kernel, Event, whole_ns}
use omnetpp_federate.Scheduler.{Scheduler, Junk}
use omnetpp_federate.Scheduler.Take.{
  Round, Taken, taken, broken, loop, body, again, round_on, round_on-again, round_on-over, hand_out,
  deliver, enter, take_next_event,
}

module _ {D T F C : Type 0} (k : Kernel D T F) (ch : Channel D C) (junk : Junk D) (cur : T) where
  abbrev Opened : Outcome (Round T F C) → Type 0
  Opened o = Then o (λ r. r.state.time_advancing ≡ true)

  round_on-Opened :
      (rest : Round T F C → Outcome (Round T F C))
      → ((r : Round T F C) → Opened (rest r))
      → (o : Outcome (Round T F C)) → Opened (round_on k ch junk cur rest o)
  round_on-Opened rest ih (stop e q) = tt
  round_on-Opened rest ih (done q) = elim (Bool-cases (again k ch junk cur q)) [
    | inl more ↦ rw (round_on-again k ch junk cur rest q more) (ih q)
    | inr over ↦ rw (round_on-over k ch junk cur rest q over) (ground arith)
  ]

  loop-Opened : (fuel : ℕ) (r : Round T F C) → Opened (loop k ch junk cur fuel r)
  unfolding loop
  loop-Opened zero r = tt
  loop-Opened (suc fuel) r =
      round_on-Opened (loop k ch junk cur fuel) (loop-Opened fuel) (body k ch junk cur r)

module _ {D T F C : Type 0} (k : Kernel D T F) (ch : Channel D C) (junk : Junk D) (now : T) where
  abbrev pub TakenOpen : Taken D T (Scheduler T F C) → Type 0
  TakenOpen (taken e s) = s.time_advancing ≡ true
  TakenOpen (broken f s) = Unit {0}

  deliver-TakenOpen :
      (retry : Scheduler T F C → Taken D T (Scheduler T F C))
      → ((s : Scheduler T F C) → TakenOpen (retry s))
      → (o : Outcome (Round T F C)) → Then o (λ r. r.state.time_advancing ≡ true)
      → TakenOpen (deliver k retry o)
  unfolding deliver hand_out
  deliver-TakenOpen retry ih (stop e r) h = tt
  deliver-TakenOpen retry ih (done r) h = handed (k.remove_first r.state.fes).0
    where
      left : Scheduler T F C
      left = record r.state { fes = (k.remove_first r.state.fes).1 }

      handed : (o : Option (Event D T)) → TakenOpen (hand_out retry left o)
      handed none = ih left
      handed (some e) = elim (Bool-cases e.is_stale) [
        | inl stale ↦ rw stale (ih left)
        | inr fresh ↦ rw fresh h
      ]

  pub take_next_event-TakenOpen :
      (fuel : ℕ) (s : Scheduler T F C) → TakenOpen (take_next_event k ch junk now fuel s)
  unfolding take_next_event
  take_next_event-TakenOpen zero s = tt
  take_next_event-TakenOpen (suc fuel) s =
      deliver-TakenOpen (take_next_event k ch junk now fuel) (take_next_event-TakenOpen fuel)
        (loop k ch junk (whole_ns k now) fuel (enter k ch junk now s))
        (loop-Opened k ch junk (whole_ns k now) fuel (enter k ch junk now s))
