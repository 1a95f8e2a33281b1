-- ===== src/Scenario/Positions.antt =====
-- Where the nodes are: the mobility commands of src/mgmt/MosaicScenarioManager.cc against a map from
-- ids to positions.
use omnetpp_federate.Prelude.{
  ◌≡◌, ◌≤◌, refl, Option, none, some, List, [], ◌∷◌, length, map, arith, if◌then◌else◌,
  Option-cases, inl, inr, Bool-cases, ◌∙◌, ap,
}
use mathlib.Core.Path.{fun_ext}
use omnetpp_federate.Prelude.Int.{ℤ, eq_ℤ, eq_ℤ_iff}
use omnetpp_federate.Prelude.Outcome.{Ends, Ends-mono, >>=-Ends}
use omnetpp_federate.Prelude.Dict.{lookup, lookup-insert}
use omnetpp_federate.Messages.{Coord, MosaicMobilityCmd, move_nodes}
use omnetpp_federate.Mobility.{set_next_position}
use omnetpp_federate.Channel.Interface.{Channel}
use omnetpp_federate.Scheduler.Simulation.{Kernel, Event, mobility}
use omnetpp_federate.Scheduler.{Scheduler}
use omnetpp_federate.Scenario.{Manager, Node, Creator, move_node, for_nodes}
use omnetpp_federate.Scenario.Handlers.{mobility_command, handle_message}

abbrev position_of : {D Q : Type 0} → Option (Node D Q) → Option (Coord D)
position_of none = none
position_of (some n) = elim n.mobility [ none ↦ none | some m ↦ some m.last_position ]

-- The position of the node with the id, if there is one and it has a mobility module.
abbrev pub position : {D Q S : Type 0} → Manager D Q S → ℤ → Option (Coord D)
position s i = position_of (lookup i s.nodes)

-- The positions behind a command: each of its places replaces the one that its node has.
abbrev pub replaced : {D : Type 0} → Coord D → Option (Coord D) → Option (Coord D)
replaced p none = none
replaced p (some q) = some p

abbrev pub moved :
    {D : Type 0} → List ℤ → List (Coord D) → (ℤ → Option (Coord D)) → ℤ → Option (Coord D)
moved [] ps f i = f i
moved (id ∷ ids) [] f i = f i
moved (id ∷ ids) (p ∷ ps) f i = moved ids ps (λ j. if eq_ℤ j id then replaced p (f j) else f j) i

module _ {D Q : Type 0} where
  abbrev pub shift : Coord D → Node D Q → Node D Q
  shift p n = record n {
    mobility = elim n.mobility [ none ↦ none | some m ↦ some (set_next_position p m) ];
    others = map (set_next_position p) n.others;
  }

  shift-position :
      (p : Coord D) (n : Node D Q)
      → position_of (some (shift p n)) ≡ replaced p (position_of (some n))
  unfolding set_next_position
  shift-position p n = elim (Option-cases n.mobility) [ inl e ↦ rw e refl | inr (m, e) ↦ rw e refl ]

module _ {D Q S : Type 0} where
  -- One node is moved, the others stay.
  move_node-position :
      (id : ℤ) (p : Coord D) (s : Manager D Q S)
      → Ends (move_node id p s) (λ t.
        (i : ℤ) → position t i ≡ (if eq_ℤ i id then replaced p (position s i) else position s i))
  unfolding move_node
  move_node-position id p s = elim (Option-cases (lookup id s.nodes)) [
    | inl e ↦
        rw (Ends, move_node, e)
          (λ i. elim (Bool-cases (eq_ℤ i id)) [
            | inl q ↦ rw (q, (eq_ℤ_iff i id).0 q, e) refl
            | inr q ↦ rw q refl
          ])
    | inr (n, e) ↦
        rw (Ends, move_node, e)
          (λ i. elim (Bool-cases (eq_ℤ i id)) [
            | inl q ↦
                rw (lookup-insert i id (shift p n) s.nodes, q, (eq_ℤ_iff i id).0 q, e)
                  (shift-position p n)
            | inr q ↦ rw (lookup-insert i id (shift p n) s.nodes, q) refl
          ])
  ]

  moved-Ends :
      (ids : List ℤ) (ps : List (Coord D)) (s : Manager D Q S)
      → length ids ≤ length ps
      → Ends
          (for_nodes move_node ids ps s)
          (λ t. (i : ℤ) → position t i ≡ moved ids ps (position s) i)
  unfolding for_nodes
  moved-Ends [] ps s h = λ i. refl
  moved-Ends (id ∷ ids) [] s h = absurd (omega arith)
  moved-Ends (id ∷ ids) (p ∷ ps) s h =
      >>=-Ends _ _ (move_node id p s) (for_nodes move_node ids ps) (move_node-position id p s)
        (λ t e.
          Ends-mono _ _ (for_nodes move_node ids ps t) (moved-Ends ids ps t (omega arith))
            (λ u g i. g i ∙ ap (λ (q : ℤ → Option (Coord D)). moved ids ps q i) (fun_ext e)))

module _ {D Q T F C : Type 0} (k : Kernel D T F) (ch : Channel D C) where
  -- A move command with a place for each of its nodes always returns. Each node that is there and
  -- has a mobility module is then at the last place that the command has for it, every other node
  -- is where it was, and unknown nodes are passed over.
  pub handle_message-moved :
      (create : Creator D Q) (e : Event D T) (cmd : MosaicMobilityCmd D)
      (s : Manager D Q (Scheduler T F C))
      → e.payload ≡ mobility cmd
      → cmd.cmd_type ≡ move_nodes
      → length cmd.node_id ≤ length cmd.position
      → Ends
          (handle_message k ch create e s)
          (λ t. (i : ℤ) → position t i ≡ moved cmd.node_id cmd.position (position s) i)
  unfolding handle_message mobility_command
  handle_message-moved create e cmd s p q h = rw (p, q) (moved-Ends cmd.node_id cmd.position s h)
