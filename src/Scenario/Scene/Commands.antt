-- ===== src/Scenario/Scene/Commands.antt =====
-- `handleMessage` of src/mgmt/MosaicScenarioManager.cc as an operation on a map from ids to nodes.
use omnetpp_federate.Prelude.{
  ◌≡◌, refl, Option, List, [], ◌∷◌, Option-cases, Bool-cases, inl, inr, subst,
}
use omnetpp_federate.Prelude.Int.{ℤ, eq_ℤ}
use omnetpp_federate.Prelude.Outcome.{Outcome, Then, >>=-Then}
use omnetpp_federate.Prelude.Dict.{lookup}
use omnetpp_federate.Messages.{
  Coord, MobilityCommandType, add_nodes, add_rsu_nodes, move_nodes, remove_nodes, MosaicMobilityCmd,
}
use omnetpp_federate.Scenario.{
  Manager, Node, Creator, add_node, add_rsu_node, move_node, remove_node, for_nodes,
  remove_nodes_of,
}
use omnetpp_federate.Scenario.Handlers.{mobility_command}
use omnetpp_federate.Scenario.Removing.{nodes_of, drop_key, drop_keys}
use omnetpp_federate.Prelude.Outcome.{done, stop, >>=-stop, double_delete}
use omnetpp_federate.Messages.{MosaicCommunicationCmd, MosaicConfigurationCmd}
use omnetpp_federate.Prelude.Int.{pos}
use omnetpp_federate.Channel.Interface.{Channel}
use omnetpp_federate.Scheduler.Simulation.{
  Kernel, Event, Payload, mobility, communication, configuration, finish as finish_cmd, app_packet,
  other,
}
use omnetpp_federate.Scheduler.{Scheduler, report_received_v2x_message}
use omnetpp_federate.Scenario.Handlers.{
  send_to, send_v2x_message, configure_radio, finish, receive_v2x_message, handle_message,
}
use omnetpp_federate.Scenario.Scene.{
  Scene, add_one, move_one, IsTyped, Becomes, add_as-Becomes, move_node-Becomes,
  remove_node-Becomes,
}

module _ {D Q : Type 0} where
  abbrev along :
      (ℤ → Coord D → Scene D Q → Scene D Q) → List ℤ → List (Coord D) → Scene D Q → Scene D Q
  along one [] ps f = f
  along one (id ∷ ids) [] f = f
  along one (id ∷ ids) (p ∷ ps) f = along one ids ps (one id p f)

  -- A mobility command, where `v` and `r` are the modules of a vehicle and of a road-side unit.
  abbrev enact_mobility :
      Option (Node D Q)
      → Option (Node D Q)
      → MobilityCommandType
      → MosaicMobilityCmd D
      → Scene D Q
      → Scene D Q
  enact_mobility v r add_nodes cmd = along (add_one v) cmd.node_id cmd.position
  enact_mobility v r add_rsu_nodes cmd = along (add_one r) cmd.node_id cmd.position
  enact_mobility v r move_nodes cmd = along move_one cmd.node_id cmd.position
  enact_mobility v r remove_nodes cmd = drop_keys cmd.node_id

  -- An event; what is not a mobility command leaves the nodes as they are.
  abbrev pub enact : Option (Node D Q) → Option (Node D Q) → Payload D → Scene D Q → Scene D Q
  enact v r (mobility cmd) = enact_mobility v r cmd.cmd_type cmd
  enact v r _ = λ f. f

module _ {D Q S : Type 0} (create : Creator D Q) (v r : Option (Node D Q)) where
  abbrev Becoming : Scene D Q → Manager D Q S → Type 0
  Becoming = Becomes create v r

  module _ (op : ℤ → Coord D → Manager D Q S → Outcome (Manager D Q S))
      (one : ℤ → Coord D → Scene D Q → Scene D Q)
      (is : (id : ℤ) (p : Coord D) (s : Manager D Q S)
        → IsTyped create v r s
        → Then (op id p s) (Becoming (one id p (nodes_of s)))) where
    for_nodes-Becomes :
        (ids : List ℤ) (ps : List (Coord D)) (s : Manager D Q S)
        → IsTyped create v r s
        → Then (for_nodes op ids ps s) (Becoming (along one ids ps (nodes_of s)))
    unfolding for_nodes
    for_nodes-Becomes [] ps s typed = (refl, typed)
    for_nodes-Becomes (id ∷ ids) [] s typed = tt
    for_nodes-Becomes (id ∷ ids) (p ∷ ps) s typed =
        >>=-Then (Becoming (one id p (nodes_of s)))
          (Becoming (along one ids ps (one id p (nodes_of s)))) (op id p s) (for_nodes op ids ps)
          (is id p s typed)
          (λ t (same, typed_t).
            subst (λ f. Then (for_nodes op ids ps t) (Becoming (along one ids ps f))) same
              (for_nodes-Becomes ids ps t typed_t))

  remove_nodes_of-Becomes :
      (ids : List ℤ) (s : Manager D Q S)
      → IsTyped create v r s
      → Then (remove_nodes_of ids s) (Becoming (drop_keys ids (nodes_of s)))
  unfolding remove_nodes_of
  remove_nodes_of-Becomes [] s typed = (refl, typed)
  remove_nodes_of-Becomes (id ∷ ids) s typed =
      >>=-Then (Becoming (drop_key id (nodes_of s)))
        (Becoming (drop_keys ids (drop_key id (nodes_of s)))) (remove_node id s)
        (remove_nodes_of ids) (remove_node-Becomes create v r id s typed)
        (λ t (same, typed_t).
          subst (λ f. Then (remove_nodes_of ids t) (Becoming (drop_keys ids f))) same
            (remove_nodes_of-Becomes ids t typed_t))

  mobility_command-Becomes :
      (type : MobilityCommandType) (cmd : MosaicMobilityCmd D) (s : Manager D Q S)
      → IsTyped create v r s
      → Then
          (mobility_command create type cmd s)
          (Becoming (enact_mobility v r type cmd (nodes_of s)))
  unfolding mobility_command add_node add_rsu_node
  mobility_command-Becomes add_nodes cmd s typed =
      for_nodes-Becomes (add_node create) (add_one v)
        (λ id p t typed_t.
          subst (λ o. Then (add_node create id p t) (Becoming (add_one o id p (nodes_of t))))
            typed_t.vehicle
            (add_as-Becomes create v r t.veh_module_type t.veh_module_name id p t typed_t))
        cmd.node_id cmd.position s typed
  mobility_command-Becomes add_rsu_nodes cmd s typed =
      for_nodes-Becomes (add_rsu_node create) (add_one r)
        (λ id p t typed_t.
          subst (λ o. Then (add_rsu_node create id p t) (Becoming (add_one o id p (nodes_of t))))
            typed_t.rsu
            (add_as-Becomes create v r t.rsu_module_type t.rsu_module_name id p t typed_t))
        cmd.node_id cmd.position s typed
  mobility_command-Becomes move_nodes cmd s typed =
      for_nodes-Becomes move_node move_one (move_node-Becomes create v r) cmd.node_id cmd.position s
        typed
  mobility_command-Becomes remove_nodes cmd s typed = remove_nodes_of-Becomes cmd.node_id s typed

  send_to-Becomes :
      (f : Scene D Q) (id : ℤ) (p : Payload D) (bytes : ℤ) (n : Node D Q) (s : Manager D Q S)
      → Becoming f s
      → Then (send_to id p bytes n s) (Becoming f)
  unfolding send_to
  send_to-Becomes f id p bytes n s (same, typed) = elim (Option-cases n.proxy) [
    | inl e ↦ rw (Then, send_to, e) tt
    | inr (j, e) ↦ rw (send_to, e) (same, record { vehicle = typed.vehicle; rsu = typed.rsu })
  ]

  send_v2x_message-Becomes :
      (f : Scene D Q) (cmd : MosaicCommunicationCmd) (s : Manager D Q S)
      → Becoming f s
      → Then (send_v2x_message cmd s) (Becoming f)
  unfolding send_v2x_message
  send_v2x_message-Becomes f cmd s h = elim (Option-cases (lookup cmd.node_id s.nodes)) [
    | inl e ↦ rw (send_v2x_message, e) h
    | inr (n, e) ↦ elim (Bool-cases (eq_ℤ cmd.ttl (pos 1))) [
      | inl q ↦ rw (send_v2x_message, e, q) (send_to-Becomes f cmd.node_id _ cmd.length n s h)
      | inr q ↦ rw (send_v2x_message, e, q) h
    ]
  ]

  configure_radio-Becomes :
      (f : Scene D Q) (cmd : MosaicConfigurationCmd D) (s : Manager D Q S)
      → Becoming f s
      → Then (configure_radio cmd s) (Becoming f)
  unfolding configure_radio
  configure_radio-Becomes f cmd s h = elim (Option-cases (lookup cmd.node_id s.nodes)) [
    | inl e ↦ rw (configure_radio, e) h
    | inr (n, e) ↦ rw (configure_radio, e) (send_to-Becomes f cmd.node_id _ (pos 0) n s h)
  ]

module _ {D Q T F C : Type 0} (k : Kernel D T F) (ch : Channel D C) (create : Creator D Q)
    (v r : Option (Node D Q)) (e : Event D T) (s : Manager D Q (Scheduler T F C))
    (typed : IsTyped create v r s) where
  abbrev Enacted : Payload D → Type 0
  Enacted p = Then (handle_message k ch create e s) (Becomes create v r (enact v r p (nodes_of s)))

  received : Then (receive_v2x_message k ch e s) (Becomes create v r (nodes_of s))
  unfolding receive_v2x_message
  received = by_report (report_received_v2x_message k ch e s.sched)
    where
      by_report :
          (o : Outcome (Scheduler T F C))
          → Then
              (elim o [
                | done u ↦ done (record s { sched = u })
                | stop f u ↦ stop f (record s { sched = u })
              ])
              (Becomes create v r (nodes_of s))
      by_report (done u) = (refl, record { vehicle = typed.vehicle; rsu = typed.rsu })
      by_report (stop f u) = tt

  -- The handler, if it returns, does to the nodes what the event does to the map.
  pub handle_message-enact : Enacted e.payload
  unfolding handle_message
  handle_message-enact = by_payload e.payload refl
    where
      by_payload : (p : Payload D) → e.payload ≡ p → Enacted p
      by_payload (mobility cmd) q =
          rw (handle_message, q) (mobility_command-Becomes create v r cmd.cmd_type cmd s typed)
      by_payload (communication cmd) q =
          rw (handle_message, q)
            (send_v2x_message-Becomes create v r (nodes_of s) cmd s (refl, typed))
      by_payload (configuration cmd) q =
          rw (handle_message, q)
            (configure_radio-Becomes create v r (nodes_of s) cmd s (refl, typed))
      by_payload finish_cmd q = rw (handle_message, q) (>>=-stop _ (finish k ch s) double_delete)
      by_payload (app_packet p) q = rw (handle_message, q) received
      by_payload other q = rw (handle_message, q) received
