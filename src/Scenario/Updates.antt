-- ===== src/Scenario/Updates.antt =====
-- An update of the ambassador on its way: what src/mgmt/MosaicEventScheduler.cc makes of it, and
-- what src/mgmt/MosaicScenarioManager.cc does with that.
use omnetpp_federate.Prelude.{
  some_injective, ◌≡◌, refl, Option, none, some, true, List, [], ◌∷◌, map, length, arith,
  if◌then◌else◌, ◌∙◌, ap, sym,
}
use omnetpp_federate.Prelude.Int.{ℤ, eq_ℤ}
use omnetpp_federate.Prelude.Outcome.{Ends, Ends-mono}
use omnetpp_federate.Messages.{Coord, MosaicMobilityCmd, move_nodes}
use omnetpp_federate.Channel.Types.{NodeData, UpdateNodeReturn, update_move_node}
use omnetpp_federate.Channel.Interface.{Channel}
use omnetpp_federate.Scheduler.Simulation.{Kernel, Event, mobility}
use omnetpp_federate.Scheduler.Commands.{
  process_update_node_command, mobility_payload, command_of_type,
}
use omnetpp_federate.Scheduler.{Scheduler}
use omnetpp_federate.Scenario.{Manager, Creator}
use omnetpp_federate.Scenario.Handlers.{handle_message}
use omnetpp_federate.Scenario.Positions.{position, replaced, moved, handle_message-moved}

length-map : {A B : Type 0} (g : A → B) (xs : List A) → length (map g xs) ≡ length xs
length-map g [] = refl
length-map g (x ∷ xs) = omega (arith, length-map g xs)

module _ {D : Type 0} (zero_double : D) where
  abbrev place_of : NodeData D → Coord D
  place_of n = record { x = n.x; y = n.y; z = zero_double }

  -- The positions behind an update: each entry replaces the place of its node, if that has one.
  abbrev carried : List (NodeData D) → (ℤ → Option (Coord D)) → ℤ → Option (Coord D)
  carried [] f i = f i
  carried (n ∷ ns) f i =
      carried ns (λ j. if eq_ℤ j n.id then replaced (place_of n) (f j) else f j) i

  abbrev command : UpdateNodeReturn D → MosaicMobilityCmd D
  command message = process_update_node_command zero_double message move_nodes true

  payload_of_move :
      (message : UpdateNodeReturn D)
      → message.type ≡ update_move_node
      → mobility_payload zero_double message ≡ some (mobility (command message))
  unfolding mobility_payload command_of_type
  payload_of_move message type =
      ap
        (λ t. elim (command_of_type zero_double message t) [
          | none ↦ none
          | some cmd ↦ some (mobility cmd)
        ])
        type

  moved-carried :
      (ns : List (NodeData D)) (f : ℤ → Option (Coord D)) (i : ℤ)
      → moved (map (λ (n : NodeData D). n.id) ns) (map place_of ns) f i ≡ carried ns f i
  moved-carried [] f i = refl
  moved-carried (n ∷ ns) f i = moved-carried ns _ i

  module _ {Q T F C : Type 0} (k : Kernel D T F) (ch : Channel D C) where
    -- An update of the ambassador that moves nodes becomes an event on which the scenario manager
    -- always returns, and then every known node that the update names is at the last place that it
    -- gives, with z zero, and the others are where they were.
    handle_message-carried :
        (create : Creator D Q) (e : Event D T) (message : UpdateNodeReturn D)
        (s : Manager D Q (Scheduler T F C))
        → message.type ≡ update_move_node
        → mobility_payload zero_double message ≡ some e.payload
        → Ends
            (handle_message k ch create e s)
            (λ t. (i : ℤ) → position t i ≡ carried message.properties (position s) i)
    unfolding process_update_node_command
    handle_message-carried create e message s type p =
        Ends-mono _ _ (handle_message k ch create e s)
          (handle_message-moved k ch create e (command message) s
            (some_injective (sym p ∙ payload_of_move message type)) refl
            (omega (
              arith,
              length-map (λ (n : NodeData D). n.id) message.properties,
              length-map place_of message.properties,
            )))
          (λ t h i. h i ∙ moved-carried message.properties (position s) i)
