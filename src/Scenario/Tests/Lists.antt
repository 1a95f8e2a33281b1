-- ===== src/Scenario/Tests/Lists.antt =====
-- Lists of nodes that come and go, and places for their modules.
use omnetpp_federate.Prelude.{
  ℕ, ◌<◌, ◌≤◌, ◌-◌, ◌^◌, ◌⊎◌, ◌≡◌, refl, List, [], ◌∷◌, map, true, false,
}
use omnetpp_federate.Prelude.Int.{pos, to_u32}
use omnetpp_federate.Prelude.Outcome.{stop, Ends, runtime_error}
use omnetpp_federate.Prelude.Dict.{lookup}
use omnetpp_federate.Messages.{MosaicMobilityCmd, add_nodes, remove_nodes}
use omnetpp_federate.Scheduler.Simulation.{mobility}
use omnetpp_federate.Scenario.{Node, add_module}
use omnetpp_federate.Scenario.Handlers.{handle_message}
use omnetpp_federate.Scenario.Removing.{Drops, can_drop, nodes_of, handle_message-Drops}
use omnetpp_federate.Scenario.Vectors.{HasPlace, add_module-HasPlace}
use omnetpp_federate.Scenario.Settling.{Settles, can_settle, handle_message-Settles}
use omnetpp_federate.Scenario.Tests.{
  creator, event, here, kernel, manager, move, silent, there, vehicle,
}

-- Vehicle 0 is removed.
handle_message-Drops_example : Drops (pos 0 ∷ []) (nodes_of manager) manager (
    handle_message kernel silent creator
      (event (mobility (record move { cmd_type = remove_nodes; node_id = pos 0 ∷ [] })))
      manager)
handle_message-Drops_example =
    handle_message-Drops kernel silent creator
      (event (mobility (record move { cmd_type = remove_nodes; node_id = pos 0 ∷ [] })))
      (record move { cmd_type = remove_nodes; node_id = pos 0 ∷ [] }) manager refl refl

can_drop_vehicle : can_drop (pos 0 ∷ []) (nodes_of manager) ≡ true
unfolding lookup
can_drop_vehicle = refl

add_module-HasPlace_example :
    ((1 < 2 ^ 31 - 1)
      × Ends
          (add_module creator (pos 1) "Car" "veh" manager)
          (λ t. HasPlace "veh" 1 (("veh", 1) ∷ []) t.vectors))
    ⊎ ((2 ^ 31 - 1 ≤ 1)
        × (add_module creator (pos 1) "Car" "veh" manager ≡ stop runtime_error manager))
unfolding lookup to_u32
add_module-HasPlace_example =
    add_module-HasPlace creator (pos 1) "Car" "veh" (record vehicle { initialized = false }) manager
      refl refl

-- Vehicle 0 is there, and the vehicles 1 and 2 are added, or 2 before 1.
abbrev additions : List ℕ → MosaicMobilityCmd ℕ
additions is = record { cmd_type = add_nodes; node_id = map pos is; position = there ∷ here ∷ [] }

abbrev car : Node ℕ ℕ
car = record vehicle { initialized = false }

handle_message-Settles_example :
    Settles creator car
      (pos 0)
      (1 ∷ 2 ∷ [])
      (there ∷ here ∷ [])
      1
      (nodes_of manager)
      (handle_message kernel silent creator (event (mobility (additions (1 ∷ 2 ∷ [])))) manager)
handle_message-Settles_example =
    handle_message-Settles kernel silent creator (event (mobility (additions (1 ∷ 2 ∷ []))))
      (additions (1 ∷ 2 ∷ [])) manager car (pos 0) (1 ∷ 2 ∷ []) refl refl refl refl refl refl

in_order : can_settle car (1 ∷ 2 ∷ []) (there ∷ here ∷ []) 1 (nodes_of manager) ≡ true
unfolding lookup to_u32
in_order = refl

out_of_order : can_settle car (2 ∷ 1 ∷ []) (there ∷ here ∷ []) 1 (nodes_of manager) ≡ false
unfolding lookup to_u32
out_of_order = refl

-- The greatest `int` is no index, though its vehicle is new.
too_far : add_module creator (pos 2147483647) "Car" "veh" manager ≡ stop runtime_error manager
unfolding add_module lookup to_u32
too_far = refl
