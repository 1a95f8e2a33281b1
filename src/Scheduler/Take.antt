-- ===== src/Scheduler/Take.antt =====
-- `takeNextEvent` of src/mgmt/MosaicEventScheduler.cc. The `do` loop may go round as often as the
-- ambassador sends commands, so it takes fuel; so does the call of itself behind a stale event.
use omnetpp_federate.Prelude.{
  ℕ, zero, suc, ◌≡◌, arith, Bool, true, false, not, ◌||◌, Option, none, some, if◌then◌else◌,
}
use omnetpp_federate.Prelude.Outcome.{Outcome, done, stop, Failure, null_pointer, out_of_fuel}
use omnetpp_federate.Channel.Interface.{Channel}
use omnetpp_federate.Scheduler.Simulation.{Kernel, Event, whole_ns}
use omnetpp_federate.Scheduler.{
  Scheduler, Junk, receive_interactions, report_next_event, end_time_advance,
}

-- The event that is returned and the state then, or a failure.
pub data Taken (D T S : Type 0) : Type 0 where
  taken : Event D T → S → Taken D T S
  broken : Failure → S → Taken D T S

-- The local variable `nextTime` goes through the rounds beside the state.
pub record Round (T F C : Type 0) : Type 0 where
  pub state : Scheduler T F C
  pub next : T

module _ {D T F C : Type 0} (k : Kernel D T F) (ch : Channel D C) (junk : Junk D) (cur : T) where
  -- The part of the body behind the first test: the grant is open.
  unfoldable pub look : Round T F C → Outcome (Round T F C)
  look r =
      if k.is_empty r.state.fes
      then done (record r { state = end_time_advance k ch cur r.state })
      else elim (k.peek_first r.state.fes) [
        | none ↦ stop null_pointer r
        | some e ↦
            let next = whole_ns k e.arrival_time in
            done (
              if k.gt next r.state.current_max_sim_time
              then record {
                state = end_time_advance k ch cur (report_next_event k ch next r.state);
                next = next;
              }
              else record r { next = next })
      ]

  abbrev pub heard : Round T F C → Outcome (Scheduler T F C) → Outcome (Round T F C)
  heard r (done s) = done (record r { state = s })
  heard r (stop e s) = stop e (record r { state = s })

  unfoldable pub listen : Round T F C → Outcome (Round T F C)
  listen r = heard r (receive_interactions k ch junk r.state)

  -- The body of the loop; each `continue` goes on to the test.
  unfoldable pub body : Round T F C → Outcome (Round T F C)
  unfolding listen
  body r = if not r.state.time_advancing then listen r else look r

  pub body-look : (r : Round T F C) → r.state.time_advancing ≡ true → body r ≡ look r
  unfolding body
  body-look r e = ground arith

  pub body-listen : (r : Round T F C) → r.state.time_advancing ≡ false → body r ≡ listen r
  unfolding body
  body-listen r e = ground arith

  -- The test that sends the loop round once more.
  abbrev pub again : Round T F C → Bool
  again r =
      not r.state.time_advancing
      || (k.is_empty r.state.fes || k.gt r.next r.state.current_max_sim_time)

  -- Behind the body: the loop goes on with `rest`, or it is left.
  abbrev pub round_on :
      (Round T F C → Outcome (Round T F C)) → Outcome (Round T F C) → Outcome (Round T F C)
  round_on rest (stop e r) = stop e r
  round_on rest (done r) = elim (again r) [ true ↦ rest r | false ↦ done r ]

  module _ (rest : Round T F C → Outcome (Round T F C)) (r : Round T F C) where
    pub round_on-again : again r ≡ true → round_on rest (done r) ≡ rest r
    round_on-again e = ground arith

    pub round_on-over : again r ≡ false → round_on rest (done r) ≡ done r
    round_on-over e = ground arith

  unfoldable pub loop : ℕ → Round T F C → Outcome (Round T F C)
  loop zero r = stop out_of_fuel r
  loop (suc fuel) r = round_on (loop fuel) (body r)

-- Behind the loop the first event is removed; `retry` is the call of the method itself, for a
-- stale event or none.
module _ {D T F C : Type 0} where
  unfoldable pub hand_out :
      (Scheduler T F C → Taken D T (Scheduler T F C))
      → Scheduler T F C
      → Option (Event D T)
      → Taken D T (Scheduler T F C)
  hand_out retry s none = retry s
  hand_out retry s (some e) = elim e.is_stale [ true ↦ retry s | false ↦ taken e s ]

  unfoldable pub deliver :
      Kernel D T F
      → (Scheduler T F C → Taken D T (Scheduler T F C))
      → Outcome (Round T F C)
      → Taken D T (Scheduler T F C)
  unfolding hand_out
  deliver k retry (stop e r) = broken e r.state
  deliver k retry (done r) =
      let (first, rest) = k.remove_first r.state.fes in
      hand_out retry (record r.state { fes = rest }) first

-- `now` is the simulation time, of which `takeNextEvent` keeps whole nanoseconds.
module _ {D T F C : Type 0} (k : Kernel D T F) (ch : Channel D C) (junk : Junk D) (now : T) where
  abbrev pub enter : Scheduler T F C → Round T F C
  enter s = record { state = s; next = k.zero_time }

  unfoldable pub take_next_event : ℕ → Scheduler T F C → Taken D T (Scheduler T F C)
  take_next_event zero s = broken out_of_fuel s
  take_next_event (suc fuel) s =
      deliver k (take_next_event fuel) (loop k ch junk (whole_ns k now) fuel (enter s))
