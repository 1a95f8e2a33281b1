-- ===== src/Scenario/Reports.antt =====
-- The calls of src/mgmt/MosaicScenarioManager.cc that leave the scheduler alone. `Told` is about all
-- events.
pub mod Sendings
pub mod Told
use Prim.Native.String.{String}
use omnetpp_federate.Prelude.{
  suc, ◌≡◌, refl, inl, inr, Option-cases, Bool-cases, List, [], ◌∷◌, ◌∙◌,
}
use omnetpp_federate.Prelude.Int.{ℤ, to_u32}
use omnetpp_federate.Prelude.Outcome.{Outcome, Then, Then-mono, >>=-Then, ◌>>=◌}
use omnetpp_federate.Prelude.Dict.{lookup}
use omnetpp_federate.Messages.{
  Coord, MobilityCommandType, add_nodes, add_rsu_nodes, move_nodes, remove_nodes, MosaicMobilityCmd,
}
use omnetpp_federate.Scenario.{
  Manager, Node, Creator, Sending, has_gate, is_index, add_module, connect_proxy, start_node,
  with_node, add_as, add_node, add_rsu_node, move_node, remove_node, for_nodes, remove_nodes_of,
}
use omnetpp_federate.Scenario.Handlers.{mobility_command}

module _ {D Q S : Type 0} where
  -- The scheduler and what has left the gates.
  abbrev pub outside : Manager D Q S → S × List (Sending D)
  outside s = (s.sched, s.sent)

  -- A method returns with these as they were in `s`.
  abbrev pub Keeps : Manager D Q S → Manager D Q S → Type 0
  Keeps s t = outside t ≡ outside s

  >>=-Keeps :
      (s : Manager D Q S) (m : Outcome (Manager D Q S))
      (f : Manager D Q S → Outcome (Manager D Q S))
      → Then m (Keeps s)
      → ((t : Manager D Q S) → Then (f t) (Keeps t))
      → Then (m >>= f) (Keeps s)
  >>=-Keeps s m f h g =
      >>=-Then (Keeps s) (Keeps s) m f h
        (λ t e. Then-mono (Keeps t) (Keeps s) (f t) (g t) (λ u q. q ∙ e))

  with_node-Keeps :
      (id : ℤ) (f : Node D Q → Manager D Q S → Outcome (Manager D Q S))
      → ((n : Node D Q) (s : Manager D Q S) → Then (f n s) (Keeps s))
      → (s : Manager D Q S) → Then (with_node id f s) (Keeps s)
  with_node-Keeps id f h s = elim (Option-cases (lookup id s.nodes)) [
    | inl e ↦ rw (Then, with_node, e) tt
    | inr (n, e) ↦ rw (with_node, e) (h n s)
  ]

  add_module-Keeps :
      (create : Creator D Q) (id : ℤ) (type name : String) (s : Manager D Q S)
      → Then (add_module create id type name s) (Keeps s)
  unfolding add_module
  add_module-Keeps create id type name s = elim (Option-cases (lookup id s.nodes)) [
    | inr (n, e) ↦ rw (Then, add_module, e) tt
    | inl e ↦ elim (Option-cases (create type)) [
      | inl q ↦ rw (Then, add_module, e, q) tt
      | inr (n, q) ↦ elim (Bool-cases (is_index (to_u32 id))) [
        | inl r ↦ rw (Then, add_module, e, q, r) refl
        | inr r ↦ rw (Then, add_module, e, q, r) tt
      ]
    ]
  ]

  connect_proxy-Keeps :
      (id : ℤ) (n : Node D Q) (s : Manager D Q S) → Then (connect_proxy id n s) (Keeps s)
  unfolding connect_proxy
  connect_proxy-Keeps id n s = elim (Option-cases n.proxy) [
    | inl e ↦ rw (Then, connect_proxy, e) refl
    | inr (old, e) ↦ elim (Bool-cases (has_gate (suc s.proxy_out) id)) [
      | inr g ↦ rw (Then, connect_proxy, e, g) tt
      | inl g ↦ elim (Bool-cases (has_gate (suc s.proxy_in) id)) [
        | inr q ↦ rw (Then, connect_proxy, e, g, q) tt
        | inl q ↦ rw (Then, connect_proxy, e, g, q) refl
      ]
    ]
  ]

  start_node-Keeps :
      (id : ℤ) (p : Coord D) (n : Node D Q) (s : Manager D Q S)
      → Then (start_node id p n s) (Keeps s)
  unfolding start_node
  start_node-Keeps id p n s = refl

  add_as-Keeps :
      (create : Creator D Q) (type name : String) (id : ℤ) (p : Coord D) (s : Manager D Q S)
      → Then (add_as create type name id p s) (Keeps s)
  unfolding add_as
  add_as-Keeps create type name id p s = elim (Option-cases (lookup id s.nodes)) [
    | inr (n, e) ↦ rw (Then, add_as, e) tt
    | inl e ↦
        rw (add_as, e)
          (>>=-Keeps s (add_module create id type name s >>= with_node id (connect_proxy id))
            (with_node id (start_node id p))
            (>>=-Keeps s (add_module create id type name s) (with_node id (connect_proxy id))
              (add_module-Keeps create id type name s)
              (with_node-Keeps id (connect_proxy id) (connect_proxy-Keeps id)))
            (with_node-Keeps id (start_node id p) (start_node-Keeps id p)))
  ]

  move_node-Keeps : (id : ℤ) (p : Coord D) (s : Manager D Q S) → Then (move_node id p s) (Keeps s)
  unfolding move_node
  move_node-Keeps id p s = elim (Option-cases (lookup id s.nodes)) [
    | inl e ↦ rw (Then, move_node, e) refl
    | inr (n, e) ↦ rw (Then, move_node, e) refl
  ]

  remove_node-Keeps : (id : ℤ) (s : Manager D Q S) → Then (remove_node id s) (Keeps s)
  unfolding remove_node
  remove_node-Keeps id s = elim (Option-cases (lookup id s.nodes)) [
    | inl e ↦ rw (Then, remove_node, e) tt
    | inr (n, e) ↦ rw (Then, remove_node, e) refl
  ]

  for_nodes-Keeps :
      (op : ℤ → Coord D → Manager D Q S → Outcome (Manager D Q S))
      → ((id : ℤ) (p : Coord D) (s : Manager D Q S) → Then (op id p s) (Keeps s))
      → (ids : List ℤ) (ps : List (Coord D)) (s : Manager D Q S)
      → Then (for_nodes op ids ps s) (Keeps s)
  unfolding for_nodes
  for_nodes-Keeps op ok [] ps s = refl
  for_nodes-Keeps op ok (id ∷ ids) [] s = tt
  for_nodes-Keeps op ok (id ∷ ids) (p ∷ ps) s =
      >>=-Keeps s (op id p s) (for_nodes op ids ps) (ok id p s) (for_nodes-Keeps op ok ids ps)

  remove_nodes_of-Keeps :
      (ids : List ℤ) (s : Manager D Q S) → Then (remove_nodes_of ids s) (Keeps s)
  unfolding remove_nodes_of
  remove_nodes_of-Keeps [] s = refl
  remove_nodes_of-Keeps (id ∷ ids) s =
      >>=-Keeps s (remove_node id s) (remove_nodes_of ids) (remove_node-Keeps id s)
        (remove_nodes_of-Keeps ids)

  pub mobility_command-Keeps :
      (create : Creator D Q) (type : MobilityCommandType) (cmd : MosaicMobilityCmd D)
      (s : Manager D Q S)
      → Then (mobility_command create type cmd s) (Keeps s)
  unfolding mobility_command add_node add_rsu_node
  mobility_command-Keeps create add_nodes cmd s =
      for_nodes-Keeps (add_node create)
        (λ id p t. add_as-Keeps create t.veh_module_type t.veh_module_name id p t) cmd.node_id
        cmd.position s
  mobility_command-Keeps create add_rsu_nodes cmd s =
      for_nodes-Keeps (add_rsu_node create)
        (λ id p t. add_as-Keeps create t.rsu_module_type t.rsu_module_name id p t) cmd.node_id
        cmd.position s
  mobility_command-Keeps create move_nodes cmd s =
      for_nodes-Keeps move_node move_node-Keeps cmd.node_id cmd.position s
  mobility_command-Keeps create remove_nodes cmd s = remove_nodes_of-Keeps cmd.node_id s
