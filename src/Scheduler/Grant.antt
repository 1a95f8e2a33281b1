-- ===== src/Scheduler/Grant.antt =====
-- Conservative synchronisation in src/mgmt/MosaicEventScheduler.cc: which events `takeNextEvent`
-- hands out under the time that the ambassador has granted.
use omnetpp_federate.Prelude.{
  ℕ, zero, suc, ◌≡◌, inl, inr, ◌⊎◌, true, false, Bool-cases, some, arith,
}
use omnetpp_federate.Prelude.Outcome.{Outcome, done, stop, Then}
use omnetpp_federate.Channel.Interface.{Channel}
use omnetpp_federate.Scheduler.Simulation.{Kernel, KernelLaws, LiveLaws, Event, whole_ns}
use omnetpp_federate.Scheduler.{
  Scheduler, Junk, receive_interactions, end_time_advance, report_next_event,
}
use omnetpp_federate.Scheduler.Arrivals.{Grows, Heard, same, more, receive_interactions-Heard}
use omnetpp_federate.Scheduler.Take.{
  Round, Taken, taken, broken, look, heard, listen, body, body-look, body-listen, again, round_on,
  round_on-again, round_on-over, loop, hand_out, deliver, enter, take_next_event,
}

-- A returned event is within the grant, and the grant is open.
abbrev pub WithinGrant : {D T F C : Type 0} → Kernel D T F → Taken D T (Scheduler T F C) → Type 0
WithinGrant k (taken e s) =
    (k.gt (whole_ns k e.arrival_time) s.current_max_sim_time ≡ false) × (s.time_advancing ≡ true)
WithinGrant k (broken e s) = Unit {0}

module _ {D T F : Type 0} (k : Kernel D T F) (laws : KernelLaws k) (live : LiveLaws k) where
  open live use {Live}

  -- The FES has live events, and `next` is no earlier than the first of them.
  pub record IsTracked (f : F) (next : T) : Type 0 where
    pub filled : k.is_empty f ≡ false
    pub alive : Live f
    pub late :
        (e : Event D T) → k.peek_first f ≡ some e → k.gt (whole_ns k e.arrival_time) next ≡ false

  pub Grows-IsTracked : (f g : F) (next : T) → Grows k f g → IsTracked f next → IsTracked g next
  Grows-IsTracked f g next (same e) t = rw e t
  Grows-IsTracked f g next (more e ok q) t = rw q (record {
    filled = laws.put_back-filled e f;
    alive = live.Live-put_back e f ok t.alive;
    late = λ x px.
        let (old, p) = laws.peek_of_filled f t.filled in
        laws.le-trans (whole_ns k x.arrival_time) (whole_ns k old.arrival_time) next
          (laws.whole_ns-mono x.arrival_time old.arrival_time (laws.put_back-first e x old f p px))
          (t.late old p);
  })

  pub first-IsTracked :
      (f : F) (e : Event D T)
      → k.is_empty f ≡ false
      → Live f
      → k.peek_first f ≡ some e
      → IsTracked f (whole_ns k e.arrival_time)
  first-IsTracked f e filled alive p = record {
    filled = filled;
    alive = alive;
    late = λ x px. ground (arith, laws.le-refl (whole_ns k e.arrival_time));
  }

  module _ {C : Type 0} (ch : Channel D C) (junk : Junk D) (cur : T) where
    abbrev Tracked : Round T F C → Type 0
    Tracked r = IsTracked r.state.fes r.next

    look-Tracked :
        (r : Round T F C)
        → k.is_empty r.state.fes ≡ false
        → Live r.state.fes
        → Then (look k ch junk cur r) Tracked
    unfolding look end_time_advance report_next_event
    look-Tracked r filled alive =
        let (e, p) = laws.peek_of_filled r.state.fes filled in
        rw (filled, p)
          (elim (Bool-cases (k.gt (whole_ns k e.arrival_time) r.state.current_max_sim_time)) [
            | inl g ↦ rw g (first-IsTracked r.state.fes e filled alive p)
            | inr g ↦ rw g (first-IsTracked r.state.fes e filled alive p)
          ])

    listen-Tracked : (r : Round T F C) → Tracked r → Then (listen k ch junk cur r) Tracked
    unfolding listen
    listen-Tracked r t =
        go (receive_interactions k ch junk r.state) (receive_interactions-Heard k ch junk r.state)
      where
        go :
            (o : Outcome (Scheduler T F C))
            → Then o (Heard k r.state)
            → Then (heard k ch junk cur r o) Tracked
        go (done s) g = Grows-IsTracked r.state.fes s.fes r.next g.0 t
        go (stop e s) g = tt

    -- Before a round: the grant is open, or `next` is already a bound.
    abbrev Primed : Round T F C → Type 0
    Primed r =
        (k.is_empty r.state.fes ≡ false)
        × Live r.state.fes
        × ((r.state.time_advancing ≡ true) ⊎ Tracked r)

    body-Tracked : (r : Round T F C) → Primed r → Then (body k ch junk cur r) Tracked
    body-Tracked r (filled, alive, inl open_grant) =
        rw (body-look k ch junk cur r open_grant) (look-Tracked r filled alive)
    body-Tracked r (filled, alive, inr t) = elim (Bool-cases r.state.time_advancing) [
      | inl open_grant ↦ rw (body-look k ch junk cur r open_grant) (look-Tracked r filled alive)
      | inr closed ↦ rw (body-listen k ch junk cur r closed) (listen-Tracked r t)
    ]

    -- Where the loop ends, its test has failed.
    abbrev Left : Round T F C → Type 0
    Left r = Tracked r × (again k ch junk cur r ≡ false)

    round_on-Left :
        (rest : Round T F C → Outcome (Round T F C))
        → ((r : Round T F C) → Primed r → Then (rest r) Left)
        → (o : Outcome (Round T F C)) → Then o Tracked
        → Then (round_on k ch junk cur rest o) Left
    round_on-Left rest ih (stop e q) t = tt
    round_on-Left rest ih (done q) t = elim (Bool-cases (again k ch junk cur q)) [
      | inl more_rounds ↦
          rw (round_on-again k ch junk cur rest q more_rounds) (ih q (t.filled, t.alive, inr t))
      | inr over ↦ rw (round_on-over k ch junk cur rest q over) (t, over)
    ]

    loop-Left : (fuel : ℕ) (r : Round T F C) → Primed r → Then (loop k ch junk cur fuel r) Left
    unfolding loop
    loop-Left zero r p = tt
    loop-Left (suc fuel) r p =
        round_on-Left (loop k ch junk cur fuel) (λ q. loop-Left fuel q) (body k ch junk cur r)
          (body-Tracked r p)

    deliver-WithinGrant :
        (retry : Scheduler T F C → Taken D T (Scheduler T F C)) (o : Outcome (Round T F C))
        → Then o Left
        → WithinGrant k (deliver k retry o)
    unfolding deliver
    deliver-WithinGrant retry (stop e r) l = tt
    deliver-WithinGrant retry (done r) l =
        let (e, p) = laws.peek_of_filled r.state.fes l.0.filled in
        rw (laws.remove_peeked r.state.fes e p, hand_out, live.Live-first e r.state.fes l.0.alive p)
          (laws.le-trans _ r.next _ (l.0.late e p) (ground arith), ground arith)

  module _ {C : Type 0} (ch : Channel D C) (junk : Junk D) (now : T) where
    -- Conservative synchronisation: started under an open grant on a FES with live events, the method
    -- returns no event that is later, in whole nanoseconds, than the time granted last.
    pub take_next_event-WithinGrant :
        (fuel : ℕ) (s : Scheduler T F C)
        → k.is_empty s.fes ≡ false
        → Live s.fes
        → s.time_advancing ≡ true
        → WithinGrant k (take_next_event k ch junk now fuel s)
    unfolding take_next_event
    take_next_event-WithinGrant zero s filled alive e = tt
    take_next_event-WithinGrant (suc fuel) s filled alive e =
        deliver-WithinGrant ch junk (whole_ns k now) (take_next_event k ch junk now fuel)
          (loop k ch junk (whole_ns k now) fuel (enter k ch junk now s))
          (loop-Left ch junk (whole_ns k now) fuel (enter k ch junk now s) (filled, alive, inl e))
