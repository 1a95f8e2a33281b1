-- ===== src/Scheduler/Progress.antt =====
-- What `takeNextEvent` of src/mgmt/MosaicEventScheduler.cc returns in the end: an event that lies
-- beyond the grant is asked for, and handed out once the ambassador has granted its time.
use omnetpp_federate.Prelude.{ℕ, zero, suc, ◌<◌, ◌≡◌, ◌∙◌, refl, subst, true, false, some, arith}
use omnetpp_federate.Prelude.Outcome.{done, Then}
use omnetpp_federate.Channel.Types.{cmd_next_event, cmd_end}
use omnetpp_federate.Channel.Interface.{Channel}
use omnetpp_federate.Scheduler.Simulation.{Kernel, KernelLaws, LiveLaws, Event, whole_ns}
use omnetpp_federate.Scheduler.{
  Scheduler, Junk, receive_interactions, end_time_advance, report_next_event,
}
use omnetpp_federate.Scheduler.Arrivals.{Heard, receive_interactions-Heard}
use omnetpp_federate.Scheduler.Grant.{WithinGrant, IsTracked, Grows-IsTracked, first-IsTracked}
use omnetpp_federate.Scheduler.Take.{
  Round, Taken, taken, look, heard, listen, body, body-look, body-listen, round_on-again,
  round_on-over, loop, hand_out, deliver, enter, take_next_event,
}

-- The state behind the request for a grant: the time of the first event is reported, and the time
-- advance has ended.
abbrev pub asked :
    {D T F C : Type 0} → Kernel D T F → Channel D C → T → T → Scheduler T F C → Scheduler T F C
asked k ch now next s = end_time_advance k ch (whole_ns k now) (report_next_event k ch next s)

-- Under a closed grant: n commands that leave it closed, and then one that opens it.
pub data Waits {D T F C : Type 0} (k : Kernel D T F) (ch : Channel D C) (junk : Junk D)
    : ℕ → Scheduler T F C → Scheduler T F C → Type 0 where
  granted :
      {s t : Scheduler T F C}
      → receive_interactions k ch junk s ≡ done t
      → t.time_advancing ≡ true
      → Waits k ch junk zero s t
  waited :
      {n : ℕ} {s t u : Scheduler T F C}
      → receive_interactions k ch junk s ≡ done t
      → t.time_advancing ≡ false
      → Waits k ch junk n t u
      → Waits k ch junk (suc n) s u

module _ {D T F C : Type 0} (k : Kernel D T F) (ch : Channel D C) (junk : Junk D) (cur : T) where
  listen-done :
      (r : Round T F C) (t : Scheduler T F C)
      → r.state.time_advancing ≡ false
      → receive_interactions k ch junk r.state ≡ done t
      → body k ch junk cur r ≡ done (record r { state = t })
  unfolding listen
  listen-done r t closed e = body-listen k ch junk cur r closed ∙ rw e

  pub loop-Waits :
      (fuel : ℕ) {n : ℕ} {s u : Scheduler T F C} (next : T)
      → Waits k ch junk n s u
      → n < fuel
      → s.time_advancing ≡ false
      → k.is_empty u.fes ≡ false
      → k.gt next u.current_max_sim_time ≡ false
      → loop k ch junk cur fuel (record { state = s; next = next })
        ≡ done (record { state = u; next = next })
  unfolding loop
  loop-Waits zero next w lt closed filled fits = absurd (omega arith)
  loop-Waits (suc fuel) {u = u} next (granted {s = s} e opened) lt closed filled fits =
      rw (listen-done (record { state = s; next = next }) u closed e) (
        round_on-over k ch junk cur (loop k ch junk cur fuel) (record { state = u; next = next })
          (ground arith))
  loop-Waits (suc fuel) {u = u} next (waited {n = n} {s = s} {t = t} e still w) lt closed filled
        fits =
      rw (listen-done (record { state = s; next = next }) t closed e) (
        round_on-again k ch junk cur (loop k ch junk cur fuel) (record { state = t; next = next })
          (ground arith)
        ∙ loop-Waits fuel {n = n} next w (omega arith) still filled fits)

module _ {D T F C : Type 0} (k : Kernel D T F) (ch : Channel D C) (junk : Junk D) where
  done-Heard : (s t : Scheduler T F C) → receive_interactions k ch junk s ≡ done t → Heard k s t
  done-Heard s t e = subst (λ o. Then o (Heard k s)) e (receive_interactions-Heard k ch junk s)

  pub hand_out-fresh :
      (retry : Scheduler T F C → Taken D T (Scheduler T F C)) (s : Scheduler T F C) (e : Event D T)
      → e.is_stale ≡ false
      → hand_out retry s (some e) ≡ taken e s
  unfolding hand_out
  hand_out-fresh retry s e fresh = simp (fresh)

  module _ (laws : KernelLaws k) (live : LiveLaws k) where
    pub Waits-Tracked :
        {n : ℕ} {s u : Scheduler T F C} (next : T)
        → Waits k ch junk n s u
        → IsTracked k laws live s.fes next
        → IsTracked k laws live u.fes next × (u.federate_ambassador ≡ s.federate_ambassador)
    Waits-Tracked next (granted {s = s} {t = t} e opened) tracked =
        let (grows, quiet) = done-Heard s t e in
        (Grows-IsTracked k laws live s.fes t.fes next grows tracked, quiet)
    Waits-Tracked next (waited {n = n} {s = s} {t = t} {u = u} e still w) tracked =
        let (grows, quiet) = done-Heard s t e in
        let (later, silent) =
          Waits-Tracked {n = n} next w
            (Grows-IsTracked k laws live s.fes t.fes next grows tracked) in
        (later, silent ∙ quiet)

    module _ (now : T) where
      look-asked :
          (s : Scheduler T F C) (e : Event D T)
          → k.is_empty s.fes ≡ false
          → k.peek_first s.fes ≡ some e
          → k.gt (whole_ns k e.arrival_time) s.current_max_sim_time ≡ true
          → look k ch junk (whole_ns k now) (enter k ch junk now s)
            ≡ done (record {
              state = asked k ch now (whole_ns k e.arrival_time) s;
              next = whole_ns k e.arrival_time;
            })
      unfolding look
      look-asked s e filled p beyond = rw (filled, p, beyond) refl

      loop-granted :
          (fuel n : ℕ) (s u : Scheduler T F C) (e : Event D T)
          → k.is_empty s.fes ≡ false
          → s.time_advancing ≡ true
          → k.peek_first s.fes ≡ some e
          → k.gt (whole_ns k e.arrival_time) s.current_max_sim_time ≡ true
          → Waits k ch junk n (asked k ch now (whole_ns k e.arrival_time) s) u
          → k.is_empty u.fes ≡ false
          → k.gt (whole_ns k e.arrival_time) u.current_max_sim_time ≡ false
          → n < fuel
          → loop k ch junk (whole_ns k now) (suc fuel) (enter k ch junk now s)
            ≡ done (record { state = u; next = whole_ns k e.arrival_time })
      unfolding loop end_time_advance
      loop-granted fuel n s u e filled open_grant p beyond w full fits lt =
          rw
            (
              body-look k ch junk (whole_ns k now) (enter k ch junk now s) open_grant,
              look-asked s e filled p beyond,
            )
            (loop-Waits k ch junk (whole_ns k now) fuel {n = n} (whole_ns k e.arrival_time) w lt
              refl full fits)

      -- Liveness: started under an open grant on live events of which the first, `e`, is later than
      -- the granted time, the method asks for a grant up to the time of `e` and ends its time advance.
      -- When n further commands leave the grant closed and the next one opens it as far as `e`, n + 2
      -- rounds are enough: the method returns the first event of the FES that these commands leave, it
      -- removes just that event, and it has written nothing else to the channel to the ambassador.
      pub take_next_event-granted :
          (fuel n : ℕ) (s u : Scheduler T F C) (e : Event D T)
          → k.is_empty s.fes ≡ false
          → live.Live s.fes
          → s.time_advancing ≡ true
          → k.peek_first s.fes ≡ some e
          → k.gt (whole_ns k e.arrival_time) s.current_max_sim_time ≡ true
          → Waits k ch junk n (asked k ch now (whole_ns k e.arrival_time) s) u
          → k.gt (whole_ns k e.arrival_time) u.current_max_sim_time ≡ false
          → n < fuel
          → (first : Event D T) × (k.peek_first u.fes ≡ some first)
            × (take_next_event k ch junk now (suc (suc fuel)) s
                ≡ taken first (record u { fes = (k.remove_first u.fes).1 }))
            × (u.federate_ambassador
                ≡ ch.write_time_message (k.in_ns (whole_ns k now)) (
                    ch.write_command cmd_end (
                      ch.write_time_message
                        (k.in_ns (whole_ns k e.arrival_time))
                        (ch.write_command cmd_next_event s.federate_ambassador))))
      unfolding take_next_event deliver end_time_advance report_next_event
      take_next_event-granted fuel n s u e filled alive open_grant p beyond w fits lt =
          let next = whole_ns k e.arrival_time in
          let (tracked, quiet) =
            Waits-Tracked {n = n} next w (first-IsTracked k laws live s.fes e filled alive p) in
          let (first, q) = laws.peek_of_filled u.fes tracked.filled in
          (
            first,
            q,
            rw
                (
                  loop-granted fuel n s u e filled open_grant p beyond w tracked.filled fits lt,
                  laws.remove_peeked u.fes first q,
                )
                (hand_out-fresh (take_next_event k ch junk now (suc fuel))
                  (record u { fes = (k.remove_first u.fes).1 }) first
                  (live.Live-first first u.fes tracked.alive q)),
            quiet,
          )

      -- Entered under a closed grant, the method looks at no event before it hands one out: when the
      -- first command opens the grant and the FES is filled, it returns the first event, though that
      -- is later than the grant.
      pub take_next_event-beyond_grant :
          (fuel : ℕ) (s t : Scheduler T F C) (e : Event D T)
          → s.time_advancing ≡ false
          → receive_interactions k ch junk s ≡ done t
          → t.time_advancing ≡ true
          → k.gt k.zero_time t.current_max_sim_time ≡ false
          → k.is_empty t.fes ≡ false
          → live.Live t.fes
          → k.peek_first t.fes ≡ some e
          → k.gt (whole_ns k e.arrival_time) t.current_max_sim_time ≡ true
          → (take_next_event k ch junk now (suc (suc fuel)) s
              ≡ taken e (record t { fes = (k.remove_first t.fes).1 }))
            × ¬ WithinGrant k (take_next_event k ch junk now (suc (suc fuel)) s)
      unfolding take_next_event deliver
      take_next_event-beyond_grant fuel s t e closed heard opened fits filled alive p beyond =
          let run : take_next_event k ch junk now (suc (suc fuel)) s
              ≡ taken e (record t { fes = (k.remove_first t.fes).1 }) =
            rw
              (
                loop-Waits k ch junk (whole_ns k now) (suc fuel) k.zero_time (granted heard opened)
                    (omega arith) closed filled fits,
                laws.remove_peeked t.fes e p,
              )
              (hand_out-fresh (take_next_event k ch junk now (suc fuel))
                (record t { fes = (k.remove_first t.fes).1 }) e
                (live.Live-first e t.fes alive p)) in
          (run, rw run (λ w. ground (arith, w.0, beyond)))
