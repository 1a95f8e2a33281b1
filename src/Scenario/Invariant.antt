-- ===== src/Scenario/Invariant.antt =====
-- `handleMessage` of src/mgmt/MosaicScenarioManager.cc keeps its nodes wired, whatever arrives.
use omnetpp_federate.Prelude.{◌≡◌, refl, Option-cases, inl, inr, Bool-cases}
use omnetpp_federate.Prelude.Int.{ℤ, pos, eq_ℤ}
use omnetpp_federate.Prelude.Outcome.{Outcome, done, stop, Then, >>=-stop, double_delete}
use omnetpp_federate.Prelude.Dict.{lookup}
use omnetpp_federate.Messages.{
  MobilityCommandType, add_nodes, add_rsu_nodes, move_nodes, remove_nodes, MosaicMobilityCmd,
  MosaicCommunicationCmd, MosaicConfigurationCmd,
}
use omnetpp_federate.Channel.Interface.{Channel}
use omnetpp_federate.Scheduler.Simulation.{
  Kernel, Event, Payload, mobility, communication, configuration, finish as finish_cmd, app_packet,
  other,
}
use omnetpp_federate.Scheduler.{Scheduler, report_received_v2x_message}
use omnetpp_federate.Scenario.{Manager, Node, Creator, add_node, add_rsu_node, move_node}
use omnetpp_federate.Scenario.Handlers.{
  mobility_command, send_to, send_v2x_message, configure_radio, finish, receive_v2x_message,
  handle_message,
}
use omnetpp_federate.Scenario.Managed.{
  IsManaged, add_as-IsManaged, move_node-IsManaged, for_nodes-IsManaged, remove_nodes_of-IsManaged,
}

module _ {D Q S : Type 0} where
  mobility_command-IsManaged :
      (create : Creator D Q) (type : MobilityCommandType) (cmd : MosaicMobilityCmd D)
      (s : Manager D Q S)
      → IsManaged s
      → Then (mobility_command create type cmd s) IsManaged
  unfolding mobility_command add_node add_rsu_node
  mobility_command-IsManaged create add_nodes cmd s h =
      for_nodes-IsManaged (add_node create)
        (λ id p t. add_as-IsManaged create t.veh_module_type t.veh_module_name id p t) cmd.node_id
        cmd.position s h
  mobility_command-IsManaged create add_rsu_nodes cmd s h =
      for_nodes-IsManaged (add_rsu_node create)
        (λ id p t. add_as-IsManaged create t.rsu_module_type t.rsu_module_name id p t) cmd.node_id
        cmd.position s h
  mobility_command-IsManaged create move_nodes cmd s h =
      for_nodes-IsManaged move_node move_node-IsManaged cmd.node_id cmd.position s h
  mobility_command-IsManaged create remove_nodes cmd s h = remove_nodes_of-IsManaged cmd.node_id s h

  send_to-IsManaged :
      (id : ℤ) (p : Payload D) (bytes : ℤ) (n : Node D Q) (s : Manager D Q S)
      → IsManaged s
      → Then (send_to id p bytes n s) IsManaged
  unfolding send_to
  send_to-IsManaged id p bytes n s h = elim (Option-cases n.proxy) [
    | inl e ↦ rw (Then, send_to, e) tt
    | inr (j, e) ↦
        rw (send_to, e)
          (λ i m l.
            let u = h i m l in record { wired = u.wired; tagged = u.tagged; started = u.started })
  ]

  send_v2x_message-IsManaged :
      (cmd : MosaicCommunicationCmd) (s : Manager D Q S)
      → IsManaged s
      → Then (send_v2x_message cmd s) IsManaged
  unfolding send_v2x_message
  send_v2x_message-IsManaged cmd s h = elim (Option-cases (lookup cmd.node_id s.nodes)) [
    | inl e ↦ rw (send_v2x_message, e) h
    | inr (n, e) ↦ elim (Bool-cases (eq_ℤ cmd.ttl (pos 1))) [
      | inl q ↦ rw (send_v2x_message, e, q) (send_to-IsManaged cmd.node_id _ cmd.length n s h)
      | inr q ↦ rw (send_v2x_message, e, q) h
    ]
  ]

  configure_radio-IsManaged :
      (cmd : MosaicConfigurationCmd D) (s : Manager D Q S)
      → IsManaged s
      → Then (configure_radio cmd s) IsManaged
  unfolding configure_radio
  configure_radio-IsManaged cmd s h = elim (Option-cases (lookup cmd.node_id s.nodes)) [
    | inl e ↦ rw (configure_radio, e) h
    | inr (n, e) ↦ rw (configure_radio, e) (send_to-IsManaged cmd.node_id _ (pos 0) n s h)
  ]

module _ {D Q T F C : Type 0} (k : Kernel D T F) (ch : Channel D C) where
  receive_v2x_message-IsManaged :
      (e : Event D T) (s : Manager D Q (Scheduler T F C))
      → IsManaged s
      → Then (receive_v2x_message k ch e s) IsManaged
  unfolding receive_v2x_message
  receive_v2x_message-IsManaged e s h = received (report_received_v2x_message k ch e s.sched)
    where
      received :
          (o : Outcome (Scheduler T F C))
          → Then
              (elim o [
                | done u ↦ done (record s { sched = u })
                | stop f u ↦ stop f (record s { sched = u })
              ])
              IsManaged
      received (done u) = λ i m l.
          let v = h i m l in record { wired = v.wired; tagged = v.tagged; started = v.started }
      received (stop f u) = tt

  -- Of every node: it is initialised, its proxy application and its mobility module, if it has them,
  -- have its id, and with a proxy application there are the gates that the id selects. If this holds
  -- before an event, of whatever kind, and the handler returns, then it holds behind it.
  pub handle_message-IsManaged :
      (create : Creator D Q) (e : Event D T) (s : Manager D Q (Scheduler T F C))
      → IsManaged s
      → Then (handle_message k ch create e s) IsManaged
  unfolding handle_message
  handle_message-IsManaged create e s h = by_payload e.payload refl
    where
      by_payload : (p : Payload D) → e.payload ≡ p → Then (handle_message k ch create e s) IsManaged
      by_payload (mobility cmd) q =
          rw (handle_message, q) (mobility_command-IsManaged create cmd.cmd_type cmd s h)
      by_payload (communication cmd) q = rw (handle_message, q) (send_v2x_message-IsManaged cmd s h)
      by_payload (configuration cmd) q = rw (handle_message, q) (configure_radio-IsManaged cmd s h)
      by_payload finish_cmd q =
          rw (handle_message, q) (>>=-stop IsManaged (finish k ch s) double_delete)
      by_payload (app_packet p) q = rw (handle_message, q) (receive_v2x_message-IsManaged e s h)
      by_payload other q = rw (handle_message, q) (receive_v2x_message-IsManaged e s h)
