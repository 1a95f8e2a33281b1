-- ===== src/Scheduler/Wire/Scripts.antt =====
-- A whole turn of the time advance on the bytes of both sockets: `takeNextEvent` of
-- src/mgmt/MosaicEventScheduler.cc asks for a grant, and the ambassador sends its commands and then
-- the grant.
use Prim.Native.String.{String}
use mathlib.Core.List.{append_assoc, append-nil}
use omnetpp_federate.Prelude.{
  ℕ, ◌^◌, ◌<◌, ◌≡◌, ◌∙◌, refl, sym, ap, false, Option, none, some, List, [], ◌∷◌, ◌++◌, length, All,
}
use omnetpp_federate.Prelude.Int.{ℤ}
use omnetpp_federate.Prelude.Outcome.{Ends, Ends-done, Ends-mono}
use omnetpp_federate.Channel.Types.{
  Cmd, cmd_success, cmd_update_node, cmd_msg_send, cmd_conf_radio, cmd_advance_time,
}
use omnetpp_federate.Channel.System.{Sockets, Codec, StreamLaws, CommandLaws}
use omnetpp_federate.Channel.Varint.Format.{IsVarint, value_of}
use omnetpp_federate.Channel.Write.{command_frame, framed}
use omnetpp_federate.Channel.Read.{fill_update}
use omnetpp_federate.Channel.Read.Messages.{fill_config, fill_send}
use omnetpp_federate.Channel.Interface.{Channel, client_server_channel}
use omnetpp_federate.Scheduler.Simulation.{Kernel, Event, Payload, put_back}
use omnetpp_federate.Scheduler.Commands.{
  mobility_payload, communication_payload, configuration_payload,
}
use omnetpp_federate.Scheduler.{Scheduler, Junk, receive_interactions}
use omnetpp_federate.Scheduler.Progress.{Waits, granted, waited}
use omnetpp_federate.Scheduler.Wire.{
  IsScheduled, event_for, receive_interactions-update_node, receive_interactions-msg_send,
  receive_interactions-conf_radio, receive_interactions-advance_time,
}

-- A command of the ambassador for the scenario manager, with the bytes of its message.
pub data Request : Type 0 where
  update send configure : List ℕ → Request

abbrev body_of : Request → List ℕ
body_of (update body) = body
body_of (send body) = body
body_of (configure body) = body

abbrev cmd_of : Request → Cmd
cmd_of (update body) = cmd_update_node
cmd_of (send body) = cmd_msg_send
cmd_of (configure body) = cmd_conf_radio

abbrev pub IsShort : Request → Type 0
IsShort r = length (body_of r) < 128 ^ 4

module _ {D S : Type 0} (os : Sockets S) (codec : Codec D) where
  -- The ambassador's bytes: the requests, and `rest` behind them.
  abbrev pub script : List Request → List ℕ → List ℕ
  script [] rest = rest
  script (r ∷ rs) rest =
      command_frame os codec (cmd_of r) ++ (framed os codec (body_of r) ++ script rs rest)

  -- What the federate answers.
  abbrev pub answer : Request → List ℕ
  answer (update body) = command_frame os codec cmd_success
  answer _ = command_frame os codec cmd_success ++ command_frame os codec cmd_success

  abbrev pub answers : List Request → List ℕ
  answers [] = []
  answers (r ∷ rs) = answer r ++ answers rs

module _ {D T F : Type 0} (k : Kernel D T F) (codec : Codec D) (junk : Junk D) where
  abbrev payload_of : Request → Option (Payload D)
  payload_of (update body) =
      mobility_payload k.zero_double
        (fill_update (record junk.update { properties = [] }) (codec.parse_update body))
  payload_of (send body) =
      some (communication_payload (fill_send junk.send (codec.parse_send body)))
  payload_of (configure body) =
      some
        (configuration_payload k.zero_double (fill_config junk.config (codec.parse_configure body)))

  abbrev time_of : Request → ℤ
  time_of (update body) = (codec.parse_update body).time
  time_of (send body) = (codec.parse_send body).time
  time_of (configure body) = (fill_config junk.config (codec.parse_configure body)).time

  -- The FES with one more event, and with those of all requests.
  abbrev insert_event : ℤ → Request → F → F
  insert_event id r f = elim (payload_of r) [
    | none ↦ f
    | some p ↦ put_back k (event_for id p (k.of_ns (time_of r))) f
  ]

  abbrev pub insert_events : ℤ → List Request → F → F
  insert_events id [] f = f
  insert_events id (r ∷ rs) f = insert_events id rs (insert_event id r f)

module _ {D T F S : Type 0} (k : Kernel D T F) (os : Sockets S) (codec : Codec D)
    (stream : StreamLaws os) (laws : CommandLaws IsVarint value_of codec)
    (prepare : String → ℕ → S → ℤ × S) (accept close : S → S) (byte : ℕ) (junk : Junk D) where
  open stream use {pending, sent}

  abbrev channel : Channel D S
  channel = client_server_channel prepare accept close os codec byte

  record Served (s t : Scheduler T F S) (id : ℤ) (r : Request) (rest : List ℕ) : Type 0 where
    inserted : t.fes ≡ insert_event k codec junk id r s.fes
    left : pending t.ambassador_federate ≡ rest
    answered : sent t.ambassador_federate ≡ sent s.ambassador_federate ++ answer os codec r
    grant : t.time_advancing ≡ s.time_advancing
    manager : t.mgmt ≡ s.mgmt

  abbrev Scheduled : Scheduler T F S → Scheduler T F S → Event D T → List ℕ → List ℕ → Type 0
  Scheduled = IsScheduled k os codec stream laws prepare accept close byte junk

  Scheduled-Served :
      (s t : Scheduler T F S) (id : ℤ) (r : Request) (rest : List ℕ) (e : Event D T)
      → put_back k e s.fes ≡ insert_event k codec junk id r s.fes
      → Scheduled s t e rest (answer os codec r)
      → Served s t id r rest
  Scheduled-Served s t id r rest e same v = record {
    inserted = v.inserted ∙ same;
    left = v.left;
    answered = v.answered;
    grant = v.grant;
    manager = v.manager;
  }

  module _ (s : Scheduler T F S) (rest : List ℕ) (id : ℤ) (known : s.mgmt ≡ some id) where
    -- One request, whichever it is.
    receive_interactions-Served :
        (r : Request)
        → IsShort r
        → pending s.ambassador_federate ≡ script os codec (r ∷ []) rest
        → Ends (receive_interactions k channel junk s) (λ t. Served s t id r rest)
    receive_interactions-Served (update body) short e =
        let (p, made, h) =
          receive_interactions-update_node k os codec stream laws prepare accept close byte junk s
            body rest id (record { bytes = e; short = short }) known in
        Ends-mono _ (λ t. Served s t id (update body) rest) (receive_interactions k channel junk s)
          h (λ t v. Scheduled-Served s t id (update body) rest _ (rw (insert_event, made) refl) v)
    receive_interactions-Served (send body) short e =
        Ends-mono _ (λ t. Served s t id (send body) rest) (receive_interactions k channel junk s)
          (receive_interactions-msg_send k os codec stream laws prepare accept close byte junk s
            body rest id (record { bytes = e; short = short }) known)
          (λ t v. Scheduled-Served s t id (send body) rest _ refl v)
    receive_interactions-Served (configure body) short e =
        Ends-mono _ (λ t. Served s t id (configure body) rest)
          (receive_interactions k channel junk s)
          (receive_interactions-conf_radio k os codec stream laws prepare accept close byte junk s
            body rest id (record { bytes = e; short = short }) known)
          (λ t v. Scheduled-Served s t id (configure body) rest _ refl v)

  -- What the commands up to the grant leave.
  pub record IsGranted (s u : Scheduler T F S) (id : ℤ) (rs : List Request) (time rest : List ℕ)
      : Type 0 where
    pub inserted : u.fes ≡ insert_events k codec junk id rs s.fes
    pub limit : u.current_max_sim_time ≡ k.of_ns (codec.parse_time time).time
    pub left : pending u.ambassador_federate ≡ rest
    pub answered : sent u.ambassador_federate ≡ sent s.ambassador_federate ++ answers os codec rs

  -- Requests and then a grant, on a closed one.
  pub script-Waits :
      (rs : List Request) (s : Scheduler T F S) (id : ℤ) (time rest : List ℕ)
      → s.time_advancing ≡ false
      → s.mgmt ≡ some id
      → All IsShort rs
      → length time < 128 ^ 4
      → pending s.ambassador_federate
        ≡ script os codec rs
            (command_frame os codec cmd_advance_time ++ (framed os codec time ++ rest))
      → (u : Scheduler T F S) × Waits k channel junk (length rs) s u × IsGranted s u id rs time rest
  script-Waits [] s id time rest closed known shorts short e =
      let (u, run, (opened, max, same, left, quiet)) =
        Ends-done _ (receive_interactions k channel junk s) (
          receive_interactions-advance_time k os codec stream laws prepare accept close byte junk s
            time rest (record { bytes = e; short = short })) in
      (
        u,
        granted run opened,
        record {
          inserted = same;
          limit = max;
          left = left;
          answered = quiet ∙ sym (append-nil (sent s.ambassador_federate));
        },
      )
  script-Waits (r ∷ rs) s id time rest closed known (first, shorts) short e =
      let (t, run, v) =
        Ends-done _ (receive_interactions k channel junk s)
          (receive_interactions-Served s _ id known r first e) in
      let (u, waits, w) =
        script-Waits rs t id time rest (v.grant ∙ closed) (v.manager ∙ known) shorts short v.left in
      (
        u,
        waited {n = length rs} run (v.grant ∙ closed) waits,
        record {
          inserted = w.inserted ∙ ap (insert_events k codec junk id rs) v.inserted;
          limit = w.limit;
          left = w.left;
          answered =
              w.answered
              ∙ ap (λ (l : List ℕ). l ++ answers os codec rs) v.answered
              ∙ append_assoc (sent s.ambassador_federate) (answer os codec r) (answers os codec rs);
        },
      )
