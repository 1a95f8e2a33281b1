-- ===== src/Scenario/Handlers.antt =====
-- `handleMessage` of src/mgmt/MosaicScenarioManager.cc, by the name of the event, and `finish`.
use Prim.Native.String.{String}
use omnetpp_federate.Prelude.{ℕ, zero, suc, true, none, some, [], ◌∷◌, ◌++◌, length, if◌then◌else◌}
use omnetpp_federate.Prelude.Int.{ℤ, pos, eq_ℤ}
use omnetpp_federate.Prelude.Outcome.{
  Outcome, done, stop, ◌>>=◌, runtime_error, double_delete, end_simulation, out_of_fuel,
}
use omnetpp_federate.Prelude.Dict.{lookup}
use omnetpp_federate.Messages.{
  MobilityCommandType, add_nodes, add_rsu_nodes, move_nodes, remove_nodes, MosaicMobilityCmd,
  MosaicCommunicationCmd, MosaicConfigurationCmd, MosaicAppPacket,
}
use omnetpp_federate.Channel.Interface.{Channel}
use omnetpp_federate.Scheduler.Simulation.{
  Kernel, Event, Payload, mobility, communication, configuration, finish as finish_cmd, app_packet,
}
use omnetpp_federate.Scheduler.{Scheduler, report_received_v2x_message, set_mgmt_module, end_run}
use omnetpp_federate.Scenario.{
  Node, Manager, Creator, add_node, add_rsu_node, move_node, remove_node, for_nodes,
  remove_nodes_of,
}

module _ {D Q S : Type 0} where
  unfoldable pub mobility_command :
      Creator D Q
      → MobilityCommandType
      → MosaicMobilityCmd D
      → Manager D Q S
      → Outcome (Manager D Q S)
  unfolding add_node add_rsu_node move_node remove_nodes_of for_nodes
  mobility_command create add_nodes cmd s = for_nodes (add_node create) cmd.node_id cmd.position s
  mobility_command create add_rsu_nodes cmd s =
      for_nodes (add_rsu_node create) cmd.node_id cmd.position s
  mobility_command create move_nodes cmd s = for_nodes move_node cmd.node_id cmd.position s
  mobility_command create remove_nodes cmd s = remove_nodes_of cmd.node_id s

  -- `send`: the gate is there and connected if the node has a proxy application. What has left is listed;
  -- OMNeT++ makes an event of it, and the FES that is behind the handler then is that of a step of `Run`.
  unfoldable pub send_to : ℤ → Payload D → ℤ → Node D Q → Manager D Q S → Outcome (Manager D Q S)
  send_to id p bytes n s = elim n.proxy [
    | none ↦ stop runtime_error s
    | some old ↦
        done (record s { sent = s.sent ++ (record { gate = id; payload = p; bytes = bytes } ∷ []) })
  ]

  -- The length of the packet message itself is left at zero, its chunk has the length.
  unfoldable pub send_v2x_message : MosaicCommunicationCmd → Manager D Q S → Outcome (Manager D Q S)
  unfolding send_to
  send_v2x_message cmd s = elim (lookup cmd.node_id s.nodes) [
    | none ↦ done s
    | some n ↦
        let packet : MosaicAppPacket = record {
          node_id = cmd.node_id;
          msg_id = cmd.msg_id;
          length = pos 0;
          channel_id = cmd.channel_id;
          dest_addr = cmd.dest_addr;
        } in
        if eq_ℤ cmd.ttl (pos 1)
        then send_to cmd.node_id (app_packet packet) cmd.length n s
        else done s
  ]

  unfoldable pub configure_radio :
      MosaicConfigurationCmd D → Manager D Q S → Outcome (Manager D Q S)
  unfolding send_to
  configure_radio cmd s = elim (lookup cmd.node_id s.nodes) [
    | none ↦ done s
    | some n ↦ send_to cmd.node_id (configuration cmd) (pos 0) n s
  ]

  -- The loop of `finish`: the first node is removed until there is none.
  unfoldable pub remove_all : ℕ → Manager D Q S → Outcome (Manager D Q S)
  unfolding remove_node
  remove_all zero s = elim s.nodes [ [] ↦ done s | x ∷ rest ↦ stop out_of_fuel s ]
  remove_all (suc fuel) s = elim s.nodes [
    | [] ↦ done s
    | x ∷ rest ↦ remove_node x.0 s >>= remove_all fuel
  ]

module _ {D Q T F C : Type 0} (k : Kernel D T F) (ch : Channel D C) where
  -- `par` reads a parameter of the NED file, `id` is the manager's own module id. The scheduler is
  -- a `MosaicEventScheduler`: with another one the code reports it and uses the null pointer.
  pub initialize :
      (String → String) → ℤ → Manager D Q (Scheduler T F C) → Manager D Q (Scheduler T F C)
  initialize par id s = record s {
    veh_module_type = par "vehModuleType";
    veh_module_name = par "vehModuleName";
    rsu_module_type = par "rsuModuleType";
    rsu_module_name = par "rsuModuleName";
    sched = set_mgmt_module k ch id s.sched;
  }

  -- `endSimulation` throws. Every round of the loop removes a node.
  unfoldable pub finish : Manager D Q (Scheduler T F C) → Outcome (Manager D Q (Scheduler T F C))
  unfolding remove_all end_run
  finish s =
      if s.once
      then done s
      else (remove_all (length s.nodes) (record s { once = true }) >>= λ t.
          stop end_simulation (record t { sched = end_run k ch t.sched }))

  unfoldable pub receive_v2x_message :
      Event D T → Manager D Q (Scheduler T F C) → Outcome (Manager D Q (Scheduler T F C))
  unfolding report_received_v2x_message
  receive_v2x_message e s = elim (report_received_v2x_message k ch e s.sched) [
    | done u ↦ done (record s { sched = u })
    | stop f u ↦ stop f (record s { sched = u })
  ]

  -- The message of a finish command is deleted before `finish`, and again if that returns.
  unfoldable pub handle_message :
      Creator D Q
      → Event D T
      → Manager D Q (Scheduler T F C)
      → Outcome (Manager D Q (Scheduler T F C))
  unfolding mobility_command send_v2x_message configure_radio finish receive_v2x_message
  handle_message create e s = elim e.payload [
    | mobility cmd ↦ mobility_command create cmd.cmd_type cmd s
    | communication cmd ↦ send_v2x_message cmd s
    | configuration cmd ↦ configure_radio cmd s
    | finish_cmd ↦ finish s >>= λ t. stop double_delete t
    | _ ↦ receive_v2x_message e s
  ]
