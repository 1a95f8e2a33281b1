-- ===== src/Scheduler/Wire/Turns.antt =====
-- A whole turn of the time advance on the bytes of both sockets: `takeNextEvent` of
-- src/mgmt/MosaicEventScheduler.cc asks for a grant, and the ambassador sends its commands and then
-- the grant.
use Prim.Native.String.{String}
use mathlib.Core.List.{append_assoc}
use omnetpp_federate.Prelude.{
  ℕ, suc, ◌^◌, ◌<◌, ◌≡◌, ◌∙◌, refl, sym, ap, false, true, some, List, ◌++◌, length, All,
}
use omnetpp_federate.Prelude.Int.{ℤ}
use omnetpp_federate.Channel.Types.{cmd_advance_time, cmd_next_event, cmd_end}
use omnetpp_federate.Channel.System.{Sockets, Codec, StreamLaws, CommandLaws}
use omnetpp_federate.Channel.Varint.Format.{IsVarint, value_of}
use omnetpp_federate.Channel.Write.{
  time_frame, command_frame, framed, write_command, write_time_message,
}
use omnetpp_federate.Channel.Interface.{Channel, client_server_channel}
use omnetpp_federate.Scheduler.Simulation.{Kernel, KernelLaws, LiveLaws, Event, whole_ns}
use omnetpp_federate.Scheduler.{Scheduler, Junk, report_next_event, end_time_advance}
use omnetpp_federate.Scheduler.Take.{taken, take_next_event}
use omnetpp_federate.Scheduler.Progress.{asked, take_next_event-granted}
use omnetpp_federate.Scheduler.Wire.Scripts.{
  Request, IsShort, script, answers, insert_events, script-Waits,
}

module _ {D T F S : Type 0} (k : Kernel D T F) (os : Sockets S) (codec : Codec D) where
  -- What the federate says: the time that it asks for, and the end of its time advance.
  abbrev pub question : T → T → List ℕ
  question next now =
      command_frame os codec cmd_next_event
      ++ (time_frame os codec (k.in_ns next)
          ++ (command_frame os codec cmd_end ++ time_frame os codec (k.in_ns now)))

module _ {D T F S : Type 0} (k : Kernel D T F) (os : Sockets S) (codec : Codec D)
    (stream : StreamLaws os) (laws : CommandLaws IsVarint value_of codec)
    (prepare : String → ℕ → S → ℤ × S) (accept close : S → S) (byte : ℕ) (junk : Junk D) where
  open stream use {pending, sent}

  abbrev channel : Channel D S
  channel = client_server_channel prepare accept close os codec byte

  four_sends :
      (w x y z : List ℕ) (c : S)
      → sent (os.send z (os.send y (os.send x (os.send w c)))) ≡ sent c ++ (w ++ (x ++ (y ++ z)))
  four_sends w x y z c = simp (stream.send-sent, append_assoc)

  question-sent :
      (next now : T) (c : S)
      → sent (
          write_time_message os codec (k.in_ns now) (
            write_command os codec cmd_end (
              write_time_message os codec
                (k.in_ns next)
                (write_command os codec cmd_next_event c))))
        ≡ sent c ++ question k os codec next now
  unfolding write_command write_time_message
  question-sent next now c =
      four_sends (command_frame os codec cmd_next_event) (time_frame os codec (k.in_ns next))
        (command_frame os codec cmd_end) (time_frame os codec (k.in_ns now)) c

  module _ (rules : KernelLaws k) (live : LiveLaws k) (now : T) where
    -- `takeNextEvent` is entered under an open grant on live events, the first of which is later than the
    -- grant, and the management module is known. The ambassador's stream holds any number of UPDATE_NODE, SEND_MESSAGE and CONF_RADIO
    -- commands with their messages, and then an ADVANCE_TIME as far as that event, each message
    -- below 128 ^ 4 bytes. Then the method returns, in as many rounds as there are commands and two
    -- more. It has asked for the time of the first event and ended its time advance, and written nothing
    -- else to that channel; it has read all these commands and no more, answered each of them but the
    -- last, and inserted one event for each of these; it returns the first event of the FES behind
    -- that, which it removes, under the new grant.
    pub take_next_event-script :
        (fuel : ℕ) (s : Scheduler T F S) (e : Event D T) (id : ℤ) (rs : List Request)
        (time rest : List ℕ)
        → k.is_empty s.fes ≡ false
        → live.Live s.fes
        → s.time_advancing ≡ true
        → k.peek_first s.fes ≡ some e
        → k.gt (whole_ns k e.arrival_time) s.current_max_sim_time ≡ true
        → s.mgmt ≡ some id
        → All IsShort rs
        → length time < 128 ^ 4
        → pending s.ambassador_federate
          ≡ script os codec rs
              (command_frame os codec cmd_advance_time ++ (framed os codec time ++ rest))
        → k.gt (whole_ns k e.arrival_time) (k.of_ns (codec.parse_time time).time) ≡ false
        → length rs < fuel
        → (first : Event D T) × (t : Scheduler T F S) × (take_next_event k channel junk now
              (suc (suc fuel))
              s
            ≡ taken first t)
          × (k.peek_first (insert_events k codec junk id rs s.fes) ≡ some first)
          × (t.fes ≡ (k.remove_first (insert_events k codec junk id rs s.fes)).1)
          × (t.current_max_sim_time ≡ k.of_ns (codec.parse_time time).time)
          × (pending t.ambassador_federate ≡ rest)
          × (sent t.ambassador_federate ≡ sent s.ambassador_federate ++ answers os codec rs)
          × (sent t.federate_ambassador
              ≡ sent s.federate_ambassador
                ++ question k os codec (whole_ns k e.arrival_time) (whole_ns k now))
    unfolding end_time_advance report_next_event
    take_next_event-script fuel s e id rs time rest filled alive open_grant p beyond known shorts
          short bytes fits lt =
        let next : T = whole_ns k e.arrival_time in
        let (u, waits, w) =
          script-Waits k os codec stream laws prepare accept close byte junk rs
            (asked k channel now next s) id time rest refl known shorts short bytes in
        let (first, q, run, told) =
          take_next_event-granted k channel junk rules live now fuel (length rs) s u e filled alive
            open_grant p beyond waits (ap (k.gt next) w.limit ∙ fits) lt in
        (
          first,
          record u { fes = (k.remove_first u.fes).1 },
          run,
          sym (ap k.peek_first w.inserted) ∙ q,
          ap (λ f. (k.remove_first f).1) w.inserted,
          w.limit,
          w.left,
          w.answered,
          ap sent told ∙ question-sent next (whole_ns k now) s.federate_ambassador,
        )
