-- ===== src/Scheduler/Arrivals.antt =====
-- What a command of the ambassador does to the future event set
-- (`receiveInteractions` of src/mgmt/MosaicEventScheduler.cc).
use omnetpp_federate.Prelude.{[], ◌≡◌, refl, inl, inr, false, Option, none, some, Option-cases}
use omnetpp_federate.Prelude.Outcome.{done, final, Then, >>=-Then}
use omnetpp_federate.Channel.Types.{
  Cmd, cmd_shut_down, cmd_update_node, cmd_msg_send, cmd_conf_radio, cmd_success,
}
use omnetpp_federate.Channel.Interface.{Channel}
use omnetpp_federate.Scheduler.Commands.{communication_payload, configuration_payload}
use omnetpp_federate.Scheduler.Simulation.{Kernel, Event, Payload, put_back}
use omnetpp_federate.Scheduler.{
  Scheduler, Junk, reply, schedule, submit, dispatch, receive_interactions, process_shut_down,
  process_update_node, process_msg_send, process_conf_radio, process_advance_time, unknown_command,
}

module _ {D T F : Type 0} (k : Kernel D T F) where
  -- A command of the ambassador leaves the FES alone or puts one live event into it.
  pub data Grows (f g : F) : Type 0 where
    same : g ≡ f → Grows f g
    more : (e : Event D T) → e.is_stale ≡ false → g ≡ put_back k e f → Grows f g

  -- The same of the scheduler; nothing is written to the channel to the ambassador.
  abbrev pub Heard : {C : Type 0} → Scheduler T F C → Scheduler T F C → Type 0
  Heard s t = Grows s.fes t.fes × (t.federate_ambassador ≡ s.federate_ambassador)

module _ {D T F C : Type 0} (k : Kernel D T F) (ch : Channel D C) (junk : Junk D) where
  schedule-Heard :
      (p : Payload D) (time : T) (s : Scheduler T F C) → Then (schedule k ch p time s) (Heard k s)
  schedule-Heard p time s = elim (Option-cases s.mgmt) [
    | inl e ↦ rw e tt
    | inr (id, e) ↦ rw e (more _ refl refl, refl)
  ]

  submit-Heard :
      (p : Option (Payload D)) (time : T) (s : Scheduler T F C)
      → Then (submit k ch p time s) (Heard k s)
  unfolding submit
  submit-Heard none time s = tt
  submit-Heard (some p) time s =
      >>=-Then (Heard k s) (Heard k s) (schedule k ch p time s)
        (λ t. done (reply k ch cmd_success t)) (schedule-Heard p time s) (λ t g. g)

  dispatch-Heard : (cmd : Cmd) (s : Scheduler T F C) → Then (dispatch k ch junk cmd s) (Heard k s)
  unfolding dispatch process_shut_down process_update_node process_msg_send process_conf_radio
      process_advance_time unknown_command
  dispatch-Heard cmd_shut_down s = schedule-Heard _ _ s
  dispatch-Heard cmd_update_node s = submit-Heard _ _ (record s {
    ambassador_federate =
        (ch.read_update_node (record junk.update { properties = [] }) s.ambassador_federate).2;
  })
  dispatch-Heard cmd_msg_send s =
      let message = (ch.read_send_message junk.send s.ambassador_federate).1 in
      submit-Heard (some (communication_payload message)) (k.of_ns message.time) (record s {
        ambassador_federate = (ch.read_send_message junk.send s.ambassador_federate).2;
      })
  dispatch-Heard cmd_conf_radio s =
      let message = (ch.read_configuration_message junk.config s.ambassador_federate).1 in
      submit-Heard (some (configuration_payload k.zero_double message)) (k.of_ns message.time)
        (record s {
          ambassador_federate = (ch.read_configuration_message junk.config s.ambassador_federate).2;
        })
  dispatch-Heard _ s = (same refl, refl)

  -- Nothing is written to the channel to the ambassador, also where a command is not carried out.
  schedule-silent :
      (p : Payload D) (time : T) (s : Scheduler T F C)
      → (final (schedule k ch p time s)).federate_ambassador ≡ s.federate_ambassador
  schedule-silent p time s = elim (Option-cases s.mgmt) [
    | inl e ↦ rw e refl
    | inr (id, e) ↦ rw e refl
  ]

  submit-silent :
      (p : Option (Payload D)) (time : T) (s : Scheduler T F C)
      → (final (submit k ch p time s)).federate_ambassador ≡ s.federate_ambassador
  unfolding submit
  submit-silent none time s = refl
  submit-silent (some p) time s = elim (Option-cases s.mgmt) [
    | inl e ↦ rw e refl
    | inr (id, e) ↦ rw e refl
  ]

  dispatch-silent :
      (cmd : Cmd) (s : Scheduler T F C)
      → (final (dispatch k ch junk cmd s)).federate_ambassador ≡ s.federate_ambassador
  unfolding dispatch process_shut_down process_update_node process_msg_send process_conf_radio
      process_advance_time unknown_command
  dispatch-silent cmd_shut_down s = schedule-silent _ _ s
  dispatch-silent cmd_update_node s = submit-silent _ _ (record s {
    ambassador_federate =
        (ch.read_update_node (record junk.update { properties = [] }) s.ambassador_federate).2;
  })
  dispatch-silent cmd_msg_send s =
      let message = (ch.read_send_message junk.send s.ambassador_federate).1 in
      submit-silent (some (communication_payload message)) (k.of_ns message.time) (record s {
        ambassador_federate = (ch.read_send_message junk.send s.ambassador_federate).2;
      })
  dispatch-silent cmd_conf_radio s =
      let message = (ch.read_configuration_message junk.config s.ambassador_federate).1 in
      submit-silent (some (configuration_payload k.zero_double message)) (k.of_ns message.time)
        (record s {
          ambassador_federate = (ch.read_configuration_message junk.config s.ambassador_federate).2;
        })
  dispatch-silent _ s = refl

  pub receive_interactions-silent :
      (s : Scheduler T F C)
      → (final (receive_interactions k ch junk s)).federate_ambassador ≡ s.federate_ambassador
  unfolding receive_interactions
  receive_interactions-silent s =
      dispatch-silent _
        (record s { ambassador_federate = (ch.read_command s.ambassador_federate).1 })

  -- Whatever the ambassador sends, the FES stays as it is or gets one live event, and nothing is
  -- written to the channel to the ambassador.
  pub receive_interactions-Heard :
      (s : Scheduler T F C) → Then (receive_interactions k ch junk s) (Heard k s)
  unfolding receive_interactions
  receive_interactions-Heard s =
      dispatch-Heard _
        (record s { ambassador_federate = (ch.read_command s.ambassador_federate).1 })
