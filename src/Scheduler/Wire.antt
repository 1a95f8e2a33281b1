-- ===== src/Scheduler/Wire.antt =====
-- From the bytes of the ambassador to the future event set: `receiveInteractions` of
-- src/mgmt/MosaicEventScheduler.cc on the channel of src/util/ClientServerChannel.cc.
pub mod Scripts
pub mod Turns
pub mod Openings
pub mod Tests
use Prim.Native.String.{String}
use mathlib.Core.List.{append_assoc, append-nil}
use omnetpp_federate.Prelude.{
  ℕ, ◌^◌, ◌<◌, ◌≡◌, ◌∙◌, refl, sym, ap, false, true, some, List, [], ◌++◌, length,
}
use omnetpp_federate.Prelude.Int.{ℤ}
use omnetpp_federate.Prelude.Outcome.{Ends}
use omnetpp_federate.Channel.Types.{
  Cmd, cmd_success, cmd_update_node, cmd_msg_send, cmd_conf_radio, cmd_advance_time,
  UpdateNodeReturn, UpdateType, UpdateNode,
}
use omnetpp_federate.Channel.System.{Sockets, Codec, StreamLaws, CommandLaws}
use omnetpp_federate.Channel.Varint.Format.{IsVarint, value_of}
use omnetpp_federate.Channel.Write.{command_frame, framed, write_command}
use omnetpp_federate.Channel.Read.{update_type_of, fill_update, read_command}
use omnetpp_federate.Channel.Read.Messages.{fill_config, fill_send}
use omnetpp_federate.Channel.Read.Bodies.{
  read_command-command_frame, read_time_message-framed, read_update_node-framed,
  read_send_message-framed, read_configuration_message-framed,
}
use omnetpp_federate.Channel.Interface.{Channel, client_server_channel}
use omnetpp_federate.Scheduler.Simulation.{Kernel, Event, Payload, put_back}
use omnetpp_federate.Scheduler.Commands.{
  mobility_payload, communication_payload, configuration_payload, command_of_type,
}
use omnetpp_federate.Scheduler.{
  Scheduler, Junk, receive_interactions, dispatch, process_advance_time, submit, process_msg_send,
  process_conf_radio, process_update_node,
}

-- The event that the scheduler makes for the management module.
abbrev pub event_for : {D T : Type 0} → ℤ → Payload D → T → Event D T
event_for id p time = record {
  payload = p;
  timestamp = time;
  arrival_time = time;
  arrival_module = id;
  is_stale = false;
}

module _ {D T F S : Type 0} (k : Kernel D T F) (os : Sockets S) (codec : Codec D)
    (stream : StreamLaws os) (laws : CommandLaws IsVarint value_of codec)
    (prepare : String → ℕ → S → ℤ × S) (accept close : S → S) (byte : ℕ) (junk : Junk D) where
  open stream use {pending, sent}

  abbrev channel : Channel D S
  channel = client_server_channel prepare accept close os codec byte

  -- The ambassador's bytes are a command and a body, and `rest` behind them.
  pub record HasCommand (s : Scheduler T F S) (cmd : Cmd) (body rest : List ℕ) : Type 0 where
    pub bytes :
        pending s.ambassador_federate ≡ command_frame os codec cmd ++ (framed os codec body ++ rest)
    pub short : length body < 128 ^ 4

  -- The state in which the command's own process runs.
  abbrev pub behind_command : Scheduler T F S → Scheduler T F S
  behind_command s = record s {
    ambassador_federate = (read_command os codec byte s.ambassador_federate).1;
  }

  pub dispatched :
      (s : Scheduler T F S) (cmd : Cmd) (rest : List ℕ)
      → pending s.ambassador_federate ≡ command_frame os codec cmd ++ rest
      → (receive_interactions k channel junk s ≡ dispatch k channel junk cmd (behind_command s))
        × (pending (behind_command s).ambassador_federate ≡ rest)
        × (sent (behind_command s).ambassador_federate ≡ sent s.ambassador_federate)
  unfolding receive_interactions
  dispatched s cmd rest e =
      let (read, behind, quiet) =
        read_command-command_frame os codec stream laws byte s.ambassador_federate cmd rest e in
      (ap (λ c. dispatch k channel junk c (behind_command s)) read, behind, quiet)

  -- With the command ADVANCE_TIME and its message on the stream in full: it opens the grant up to
  -- the time that the message holds, and nothing is sent.
  pub receive_interactions-advance_time :
      (s : Scheduler T F S) (body rest : List ℕ)
      → HasCommand s cmd_advance_time body rest
      → Ends (receive_interactions k channel junk s) (λ t.
        (t.time_advancing ≡ true)
        × (t.current_max_sim_time ≡ k.of_ns (codec.parse_time body).time)
        × (t.fes ≡ s.fes)
        × (pending t.ambassador_federate ≡ rest)
        × (sent t.ambassador_federate ≡ sent s.ambassador_federate))
  unfolding dispatch process_advance_time
  receive_interactions-advance_time s body rest h =
      let (run, left, quiet) =
        dispatched s cmd_advance_time (framed os codec body ++ rest) h.bytes in
      let (time, behind, silent) =
        read_time_message-framed os codec stream laws byte (behind_command s).ambassador_federate
          body rest h.short left in
      rw run (refl, ap k.of_ns time, refl, behind, silent ∙ quiet)

  abbrev acknowledged : List ℕ
  acknowledged = command_frame os codec cmd_success

  -- What is left behind a command that became an event, with the bytes that were sent.
  pub record IsScheduled (s t : Scheduler T F S) (e : Event D T) (rest answer : List ℕ)
      : Type 0 where
    pub inserted : t.fes ≡ put_back k e s.fes
    pub left : pending t.ambassador_federate ≡ rest
    pub answered : sent t.ambassador_federate ≡ sent s.ambassador_federate ++ answer
    pub grant : t.time_advancing ≡ s.time_advancing
    pub limit : t.current_max_sim_time ≡ s.current_max_sim_time
    pub manager : t.mgmt ≡ s.mgmt

  -- `submit`, started where the ambassador's stream is behind the message.
  submit-IsScheduled :
      (s u : Scheduler T F S) (id : ℤ) (p : Payload D) (time : T) (rest answer : List ℕ)
      → u.mgmt ≡ some id
      → u.fes ≡ s.fes
      → u.time_advancing ≡ s.time_advancing
      → u.current_max_sim_time ≡ s.current_max_sim_time
      → u.mgmt ≡ s.mgmt
      → pending u.ambassador_federate ≡ rest
      → sent u.ambassador_federate ≡ sent s.ambassador_federate ++ answer
      → Ends
          (submit k channel (some p) time u)
          (λ t. IsScheduled s t (event_for id p time) rest (answer ++ acknowledged))
  unfolding submit write_command
  submit-IsScheduled s u id p time rest answer m f g max same left answered =
      rw (submit, m)
        (record {
          inserted = ap (put_back k (event_for id p time)) f;
          left = stream.send-pending acknowledged u.ambassador_federate ∙ left;
          answered =
              stream.send-sent acknowledged u.ambassador_federate
              ∙ ap (λ (l : List ℕ). l ++ acknowledged) answered
              ∙ append_assoc (sent s.ambassador_federate) answer acknowledged;
          grant = g;
          limit = max;
          manager = sym m ∙ same;
        })

  -- With the command SEND_MESSAGE and its message on the stream in full, and the management module
  -- known: it becomes one event of the FES for that module, at the message's time, and the stream
  -- is read as far as the message. It is acknowledged twice, since the reader and the scheduler
  -- both write CMD_SUCCESS.
  pub receive_interactions-msg_send :
      (s : Scheduler T F S) (body rest : List ℕ) (id : ℤ)
      → HasCommand s cmd_msg_send body rest
      → s.mgmt ≡ some id
      → Ends (receive_interactions k channel junk s) (λ t.
        IsScheduled s t
          (event_for id
            (communication_payload (fill_send junk.send (codec.parse_send body)))
            (k.of_ns (codec.parse_send body).time))
          rest
          (acknowledged ++ acknowledged))
  unfolding dispatch process_msg_send fill_send
  receive_interactions-msg_send s body rest id h m =
      let (run, left, quiet) = dispatched s cmd_msg_send (framed os codec body ++ rest) h.bytes in
      let (message, behind, answered) =
        read_send_message-framed os codec stream laws byte (behind_command s).ambassador_federate
          body rest h.short left junk.send in
      rw (run, message)
        (submit-IsScheduled s _ id _ _ rest acknowledged m refl refl refl refl behind
          (answered ∙ ap (λ (l : List ℕ). l ++ acknowledged) quiet))

  -- With the command CONF_RADIO and its message on the stream in full, and the management module
  -- known: it becomes one event of the FES for that module, at the message's time, and the stream
  -- is read as far as the message. It is acknowledged twice, too.
  pub receive_interactions-conf_radio :
      (s : Scheduler T F S) (body rest : List ℕ) (id : ℤ)
      → HasCommand s cmd_conf_radio body rest
      → s.mgmt ≡ some id
      → Ends (receive_interactions k channel junk s) (λ t.
        let message = fill_config junk.config (codec.parse_configure body) in
        IsScheduled s t
          (event_for id (configuration_payload k.zero_double message) (k.of_ns message.time))
          rest
          (acknowledged ++ acknowledged))
  unfolding dispatch process_conf_radio
  receive_interactions-conf_radio s body rest id h m =
      let (run, left, quiet) = dispatched s cmd_conf_radio (framed os codec body ++ rest) h.bytes in
      let (message, behind, answered) =
        read_configuration_message-framed os codec stream laws byte
          (behind_command s).ambassador_federate body rest h.short left junk.config in
      rw (run, message)
        (submit-IsScheduled s _ id _ _ rest acknowledged m refl refl refl refl behind
          (answered ∙ ap (λ (l : List ℕ). l ++ acknowledged) quiet))

  mobility_payload-fill_update :
      (ret : UpdateNodeReturn D) (message : UpdateNode D)
      → (p : Payload D) × (mobility_payload k.zero_double (fill_update ret message) ≡ some p)
  unfolding mobility_payload command_of_type fill_update
  mobility_payload-fill_update ret message = by_type message.update_type
    where
      by_type :
          (u : UpdateType)
          → (p : Payload D) × (mobility_payload k.zero_double (record {
            type = update_type_of u;
            time = message.time;
            properties = ret.properties ++ message.properties;
          })
              ≡ some p)
      by_type UpdateType.add_rsu = (_, refl)
      by_type UpdateType.add_vehicle = (_, refl)
      by_type UpdateType.move_node = (_, refl)
      by_type UpdateType.remove_node = (_, refl)

  -- With the command UPDATE_NODE and its message on the stream in full, and the management module
  -- known: it becomes one event of the FES for that module, at the message's time, that carries the
  -- mobility command for it, and the stream is read as far as the message. It is acknowledged once.
  pub receive_interactions-update_node :
      (s : Scheduler T F S) (body rest : List ℕ) (id : ℤ)
      → HasCommand s cmd_update_node body rest
      → s.mgmt ≡ some id
      → (p : Payload D) × (mobility_payload k.zero_double
            (fill_update (record junk.update { properties = [] }) (codec.parse_update body))
          ≡ some p)
        × Ends (receive_interactions k channel junk s) (λ t.
          IsScheduled s t
            (event_for id p (k.of_ns (codec.parse_update body).time))
            rest
            acknowledged)
  unfolding dispatch process_update_node fill_update
  receive_interactions-update_node s body rest id h m =
      let empty : UpdateNodeReturn D = record junk.update { properties = [] } in
      let (run, left, quiet) =
        dispatched s cmd_update_node (framed os codec body ++ rest) h.bytes in
      let (ok, message, behind, answered) =
        read_update_node-framed os codec stream laws byte (behind_command s).ambassador_federate
          body rest h.short left empty in
      let (p, made) = mobility_payload-fill_update empty (codec.parse_update body) in
      (
        p,
        made,
        rw (run, message, made)
            (submit-IsScheduled s _ id p _ rest [] m refl refl refl refl behind
              (answered ∙ quiet ∙ sym (append-nil (sent s.ambassador_federate)))),
      )
