-- ===== src/Scenario/Removing.antt =====
-- The remove commands of src/mgmt/MosaicScenarioManager.cc against a map from ids to nodes.
use mathlib.Core.Path.{fun_ext}
use omnetpp_federate.Prelude.{
  ◌≡◌, refl, ◌⊎◌, inl, inr, Option, none, some, List, [], ◌∷◌, ◌++◌, Bool, true, false,
  if◌then◌else◌, Option-cases, ◌∙◌, subst, sym,
}
use omnetpp_federate.Prelude.Int.{ℤ, eq_ℤ}
use omnetpp_federate.Prelude.Outcome.{Outcome, stop, Ends, Ends-mono, runtime_error}
use omnetpp_federate.Prelude.Dict.{lookup, erase, lookup-erase}
use omnetpp_federate.Messages.{MosaicMobilityCmd, remove_nodes}
use omnetpp_federate.Channel.Interface.{Channel}
use omnetpp_federate.Scheduler.Simulation.{Kernel, Event, mobility}
use omnetpp_federate.Scheduler.{Scheduler}
use omnetpp_federate.Scenario.{Manager, Node, Creator, removal, remove_node, remove_nodes_of}
use omnetpp_federate.Scenario.Handlers.{mobility_command, handle_message}

-- The map without a key, and without each key of a list.
abbrev pub drop_key : {A : Type 0} → ℤ → (ℤ → Option A) → ℤ → Option A
drop_key id f i = if eq_ℤ i id then none else f i

abbrev pub drop_keys : {A : Type 0} → List ℤ → (ℤ → Option A) → ℤ → Option A
drop_keys [] f = f
drop_keys (id ∷ ids) f = drop_keys ids (drop_key id f)

-- Each key is there when its turn comes: all are there, and none is named twice.
abbrev pub can_drop : {A : Type 0} → List ℤ → (ℤ → Option A) → Bool
can_drop [] f = true
can_drop (id ∷ ids) f =
    let rest = can_drop ids (drop_key id f) in elim (f id) [ none ↦ false | some a ↦ rest ]

module _ {D Q S : Type 0} where
  abbrev pub nodes_of : Manager D Q S → ℤ → Option (Node D Q)
  nodes_of s i = lookup i s.nodes

  -- The nodes are those of the map `f`, behind gates as before.
  abbrev pub Left : (ℤ → Option (Node D Q)) → Manager D Q S → Manager D Q S → Type 0
  Left f s t =
      ((i : ℤ) → nodes_of t i ≡ f i) × (t.proxy_out ≡ s.proxy_out) × (t.proxy_in ≡ s.proxy_in)

  abbrev removed : ℤ → Node D Q → Manager D Q S → Manager D Q S
  removed id n s = record s { nodes = erase id s.nodes; removals = s.removals ++ removal id n }

  remove_node-removed :
      (id : ℤ) (ids : List ℤ) (n : Node D Q) (s : Manager D Q S)
      → nodes_of s id ≡ some n
      → remove_nodes_of (id ∷ ids) s ≡ remove_nodes_of ids (removed id n s)
  unfolding remove_nodes_of remove_node
  remove_node-removed id ids n s e = rw (remove_node, e) refl

  -- Of a run from `s` with the nodes `f`: it drops the keys or stops on an error.
  abbrev pub Drops :
      List ℤ → (ℤ → Option (Node D Q)) → Manager D Q S → Outcome (Manager D Q S) → Type 0
  Drops ids f s o =
      ((can_drop ids f ≡ true) × Ends o (Left (drop_keys ids f) s))
      ⊎ ((can_drop ids f ≡ false) × (t : Manager D Q S) × (o ≡ stop runtime_error t))

  Drops-cons :
      (id : ℤ) (ids : List ℤ) (n : Node D Q) (s t : Manager D Q S) (o : Outcome (Manager D Q S))
      → nodes_of s id ≡ some n
      → Left (drop_key id (nodes_of s)) s t
      → Drops ids (nodes_of t) t o
      → Drops (id ∷ ids) (nodes_of s) s o
  Drops-cons id ids n s t o e (same, gates_out, gates_in) d =
      go (subst (λ f. Drops ids f t o) (fun_ext same) d)
    where
      go : Drops ids (drop_key id (nodes_of s)) t o → Drops (id ∷ ids) (nodes_of s) s o
      go (inl (can, left)) = inl (
        rw (can_drop, e) can,
        Ends-mono _ _ o left (λ u (nodes, a, b). (nodes, a ∙ gates_out, b ∙ gates_in)),
      )
      go (inr (can, u, stopped)) = inr (rw (can_drop, e) can, u, stopped)

  remove_nodes_of-Drops :
      (ids : List ℤ) (s : Manager D Q S) → Drops ids (nodes_of s) s (remove_nodes_of ids s)
  unfolding remove_nodes_of remove_node
  remove_nodes_of-Drops [] s = inl (refl, (λ i. refl, refl, refl))
  remove_nodes_of-Drops (id ∷ ids) s = elim (Option-cases (lookup id s.nodes)) [
    | inl e ↦ inr (rw (can_drop, e) refl, s, rw (remove_nodes_of, remove_node, e) refl)
    | inr (n, e) ↦
        let t : Manager D Q S = removed id n s in
        Drops-cons id ids n s t (remove_nodes_of (id ∷ ids) s) e
          (λ i. lookup-erase i id s.nodes, refl, refl)
          (subst (Drops ids (nodes_of t) t) (sym (remove_node-removed id ids n s e))
            (remove_nodes_of-Drops ids t))
  ]

module _ {D Q T F C : Type 0} (k : Kernel D T F) (ch : Channel D C) where
  -- A remove command returns if each node that it names is managed and it names none twice; then
  -- the nodes are those before without these, and there are as many gates as before. Else it throws
  -- a runtime error.
  pub handle_message-Drops :
      (create : Creator D Q) (e : Event D T) (cmd : MosaicMobilityCmd D)
      (s : Manager D Q (Scheduler T F C))
      → e.payload ≡ mobility cmd
      → cmd.cmd_type ≡ remove_nodes
      → Drops cmd.node_id (nodes_of s) s (handle_message k ch create e s)
  unfolding handle_message mobility_command
  handle_message-Drops create e cmd s p q = rw (p, q) (remove_nodes_of-Drops cmd.node_id s)
