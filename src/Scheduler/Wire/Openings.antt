-- ===== src/Scheduler/Wire/Openings.antt =====
-- The first call of `takeNextEvent` of src/mgmt/MosaicEventScheduler.cc, on the bytes of both sockets:
-- behind the hand-shake the grant is closed.
use Prim.Native.String.{String}
use omnetpp_federate.Prelude.{
  ℕ, suc, ◌^◌, ◌<◌, ◌≡◌, ◌∙◌, sym, ap, false, some, List, ◌++◌, length, All,
}
use omnetpp_federate.Prelude.Int.{ℤ}
use omnetpp_federate.Channel.Types.{cmd_advance_time}
use omnetpp_federate.Channel.System.{Sockets, Codec, StreamLaws, CommandLaws}
use omnetpp_federate.Channel.Varint.Format.{IsVarint, value_of}
use omnetpp_federate.Channel.Write.{command_frame, framed}
use omnetpp_federate.Channel.Interface.{Channel, client_server_channel}
use omnetpp_federate.Scheduler.Simulation.{Kernel, KernelLaws, LiveLaws, Event, whole_ns}
use omnetpp_federate.Scheduler.{Scheduler, Junk}
use omnetpp_federate.Scheduler.Grant.{first-IsTracked}
use omnetpp_federate.Scheduler.Take.{taken, take_next_event, deliver}
use omnetpp_federate.Scheduler.Progress.{Waits-Tracked, loop-Waits, hand_out-fresh}
use omnetpp_federate.Scheduler.Wire.Scripts.{
  Request, IsShort, script, answers, insert_events, script-Waits,
}

module _ {D T F S : Type 0} (k : Kernel D T F) (os : Sockets S) (codec : Codec D)
    (stream : StreamLaws os) (laws : CommandLaws IsVarint value_of codec)
    (prepare : String → ℕ → S → ℤ × S) (accept close : S → S) (byte : ℕ) (junk : Junk D)
    (rules : KernelLaws k) (live : LiveLaws k) (now : T) where
  open stream use {pending, sent}

  abbrev channel : Channel D S
  channel = client_server_channel prepare accept close os codec byte

  -- `takeNextEvent` is entered under a closed grant, as it is behind the hand-shake, on live events, and
  -- the management module is known. The ambassador's stream holds any number of UPDATE_NODE,
  -- SEND_MESSAGE and CONF_RADIO commands with their messages, and then an ADVANCE_TIME to a time that is
  -- not negative, each message below 128 ^ 4 bytes. Then the method returns the first event of the FES
  -- behind these commands, whatever its time: it has not been compared with the grant. It has written
  -- nothing to the channel to the ambassador, read all these commands and no more, and answered each
  -- of them but the last.
  pub take_next_event-first :
      (fuel : ℕ) (s : Scheduler T F S) (id : ℤ) (rs : List Request) (time rest : List ℕ)
      → k.is_empty s.fes ≡ false
      → live.Live s.fes
      → s.time_advancing ≡ false
      → s.mgmt ≡ some id
      → All IsShort rs
      → length time < 128 ^ 4
      → pending s.ambassador_federate
        ≡ script os codec rs
            (command_frame os codec cmd_advance_time ++ (framed os codec time ++ rest))
      → k.gt k.zero_time (k.of_ns (codec.parse_time time).time) ≡ false
      → length rs < fuel
      → (first : Event D T) × (t : Scheduler T F S) × (take_next_event k channel junk now
            (suc fuel)
            s
          ≡ taken first t)
        × (k.peek_first (insert_events k codec junk id rs s.fes) ≡ some first)
        × (t.fes ≡ (k.remove_first (insert_events k codec junk id rs s.fes)).1)
        × (t.current_max_sim_time ≡ k.of_ns (codec.parse_time time).time)
        × (pending t.ambassador_federate ≡ rest)
        × (sent t.ambassador_federate ≡ sent s.ambassador_federate ++ answers os codec rs)
        × (t.federate_ambassador ≡ s.federate_ambassador)
  unfolding take_next_event deliver
  take_next_event-first fuel s id rs time rest filled alive closed known shorts short bytes fits
        lt =
      let (u, waits, w) =
        script-Waits k os codec stream laws prepare accept close byte junk rs s id time rest closed
          known shorts short bytes in
      let (e, p) = rules.peek_of_filled s.fes filled in
      let (tracked, silent) =
        Waits-Tracked k channel junk rules live {n = length rs} (whole_ns k e.arrival_time) waits
          (first-IsTracked k rules live s.fes e filled alive p) in
      let (first, q) = rules.peek_of_filled u.fes tracked.filled in
      (
        first,
        record u { fes = (k.remove_first u.fes).1 },
        rw
            (
              loop-Waits k channel junk (whole_ns k now) fuel {n = length rs} k.zero_time waits lt
                  closed tracked.filled (ap (k.gt k.zero_time) w.limit ∙ fits),
              rules.remove_peeked u.fes first q,
            )
            (hand_out-fresh k channel junk (take_next_event k channel junk now fuel)
              (record u { fes = (k.remove_first u.fes).1 }) first
              (live.Live-first first u.fes tracked.alive q)),
        sym (ap k.peek_first w.inserted) ∙ q,
        ap (λ f. (k.remove_first f).1) w.inserted,
        w.limit,
        w.left,
        w.answered,
        silent,
      )
