-- ===== src/Scenario/Settling.antt =====
-- The add commands of src/mgmt/MosaicScenarioManager.cc against a map from ids to nodes.
use mathlib.Core.Path.{fun_ext}
use omnetpp_federate.Prelude.{
  ℕ, suc, ◌+◌, ◌≤◌, ◌≡◌, refl, ◌⊎◌, inl, inr, Option, none, some, List, [], ◌∷◌, map, length, Bool,
  true, false, arith, leb, ◌&&◌, if◌then◌else◌, Option-cases, ◌∙◌, ap, subst, sym,
}
use omnetpp_federate.Prelude.Int.{ℤ, pos, eq_ℤ, to_u32}
use omnetpp_federate.Prelude.Outcome.{
  Outcome, done, stop, Ends, Ends-mono, Ends-done, runtime_error, ◌>>=◌,
}
use omnetpp_federate.Messages.{Coord, MosaicMobilityCmd, add_nodes}
use omnetpp_federate.Channel.Interface.{Channel}
use omnetpp_federate.Scheduler.Simulation.{Kernel, Event, mobility}
use omnetpp_federate.Scheduler.{Scheduler}
use omnetpp_federate.Scenario.{Manager, Node, Creator, is_index, add_node, add_as, for_nodes}
use omnetpp_federate.Scenario.Handlers.{mobility_command, handle_message}
use omnetpp_federate.Scenario.Adding.{placed, add_node-placed}
use omnetpp_federate.Scenario.Removing.{nodes_of}

module _ {D Q : Type 0} (n : Node D Q) where
  -- The map with one more node, which is `n` connected under its id, placed and initialised.
  abbrev settle_one : ℕ → Coord D → (ℤ → Option (Node D Q)) → ℤ → Option (Node D Q)
  settle_one i p f k = if eq_ℤ k (pos i) then some (placed (pos i) p n) else f k

  abbrev settle : List ℕ → List (Coord D) → (ℤ → Option (Node D Q)) → ℤ → Option (Node D Q)
  settle [] ps f = f
  settle (i ∷ is) [] f = f
  settle (i ∷ is) (p ∷ ps) f = settle is ps (settle_one i p f)

  -- With so many gates, each id is new when its turn comes, an index of OMNeT++, no greater than the
  -- number of gates then, and has a place.
  abbrev pub can_settle : List ℕ → List (Coord D) → ℕ → (ℤ → Option (Node D Q)) → Bool
  can_settle [] ps gates f = true
  can_settle (i ∷ is) [] gates f = false
  can_settle (i ∷ is) (p ∷ ps) gates f =
      let rest = can_settle is ps (suc gates) (settle_one i p f) in
      elim (f (pos i)) [
        | none ↦ (if is_index (to_u32 (pos i)) && leb i gates then rest else false)
        | some x ↦ false
      ]

module _ {D Q S : Type 0} (create : Creator D Q) (n : Node D Q) (j : ℤ) where
  -- Of a run from `gates` gates and the nodes `f`: it settles all nodes or stops on an error.
  abbrev pub Settles :
      List ℕ → List (Coord D) → ℕ → (ℤ → Option (Node D Q)) → Outcome (Manager D Q S) → Type 0
  Settles is ps gates f o =
      ((can_settle n is ps gates f ≡ true)
        × Ends o (λ t.
          ((k : ℤ) → nodes_of t k ≡ settle n is ps f k) × (t.proxy_out ≡ gates + length is)))
      ⊎ ((can_settle n is ps gates f ≡ false) × (t : Manager D Q S) × (o ≡ stop runtime_error t))

  abbrev settling : List ℕ → List (Coord D) → Manager D Q S → Outcome (Manager D Q S)
  settling is ps s = for_nodes (add_node create) (map pos is) ps s

  module _ (i : ℕ) (is : List ℕ) (p : Coord D) (ps : List (Coord D)) (s : Manager D Q S) where
    step_to :
        (o : Outcome (Manager D Q S))
        → add_node create (pos i) p s ≡ o
        → settling (i ∷ is) (p ∷ ps) s ≡ (o >>= settling is ps)
    unfolding for_nodes
    step_to o e = ap (λ (o : Outcome (Manager D Q S)). o >>= settling is ps) e

    known_id :
        (x : Node D Q)
        → nodes_of s (pos i) ≡ some x
        → add_node create (pos i) p s ≡ stop runtime_error s
    unfolding add_node add_as
    known_id x e = rw (add_node, add_as, e) refl

    Settles-cons :
        (t : Manager D Q S)
        → nodes_of s (pos i) ≡ none
        → is_index (to_u32 (pos i)) ≡ true
        → i ≤ s.proxy_out
        → t.proxy_out ≡ suc s.proxy_out
        → ((k : ℤ) → nodes_of t k ≡ settle_one n i p (nodes_of s) k)
        → Settles is ps t.proxy_out (nodes_of t) (settling is ps t)
        → Settles (i ∷ is) (p ∷ ps) s.proxy_out (nodes_of s) (settling is ps t)
    Settles-cons t fresh near fits one_more same h = go (
        subst (λ g. Settles is ps g (settle_one n i p (nodes_of s)) (settling is ps t)) one_more
          (subst (λ f. Settles is ps t.proxy_out f (settling is ps t)) (fun_ext same) h))
      where
        within : (is_index (to_u32 (pos i)) && leb i s.proxy_out) ≡ true
        within = ground arith

        go :
            Settles is ps (suc s.proxy_out) (settle_one n i p (nodes_of s)) (settling is ps t)
            → Settles (i ∷ is) (p ∷ ps) s.proxy_out (nodes_of s) (settling is ps t)
        go (inl (can, ends)) = inl (
          rw (can_settle, fresh, within) can,
          Ends-mono _ _ (settling is ps t) ends (λ u (nodes, gates). (nodes, omega arith)),
        )
        go (inr (can, u, stopped)) = inr (rw (can_settle, fresh, within) can, u, stopped)

  for_nodes-Settles :
      (is : List ℕ) (ps : List (Coord D)) (s : Manager D Q S)
      → create s.veh_module_type ≡ some n
      → n.proxy ≡ some j
      → s.proxy_in ≡ s.proxy_out
      → Settles is ps s.proxy_out (nodes_of s) (settling is ps s)
  unfolding for_nodes
  for_nodes-Settles [] ps s known proxied even = inl (refl, (λ k. refl, omega arith))
  for_nodes-Settles (i ∷ is) [] s known proxied even = inr (refl, s, refl)
  for_nodes-Settles (i ∷ is) (p ∷ ps) s known proxied even =
      elim (Option-cases (nodes_of s (pos i))) [
        | inr (x, e) ↦ inr (
          rw (can_settle, e) refl,
          s,
          step_to i is p ps s (stop runtime_error s) (known_id i is p ps s x e),
        )
        | inl fresh ↦ elim (add_node-placed create i p s n j fresh known proxied even) [
          | inr (beyond, t, stopped) ↦
              let outside : (is_index (to_u32 (pos i)) && leb i s.proxy_out) ≡ false =
                ground arith in
              inr (
                rw (can_settle, fresh, outside) refl,
                t,
                step_to i is p ps s (stop runtime_error t) stopped,
              )
          | inl (near, fits, ends) ↦
              let (t, returned, (type, out, inward, same)) =
                Ends-done _ (add_node create (pos i) p s) ends in
              subst (Settles (i ∷ is) (p ∷ ps) s.proxy_out (nodes_of s))
                (sym (step_to i is p ps s (done t) returned))
                (Settles-cons i is p ps s t fresh near fits out same
                  (for_nodes-Settles is ps t (ap create type ∙ known) proxied (omega arith)))
        ]
      ]

module _ {D Q T F C : Type 0} (k : Kernel D T F) (ch : Channel D C) where
  -- A command to add vehicles, of a known type and with a proxy application, while there are as
  -- many incoming gates as outgoing ones. It returns if each id is new, has a place, is an index that
  -- OMNeT++ takes, and is no greater than the number of gates, which grows by one with each node; then the nodes are the old
  -- ones and the new ones, connected under their ids, placed and initialised. Else it throws a
  -- runtime error.
  pub handle_message-Settles :
      (create : Creator D Q) (e : Event D T) (cmd : MosaicMobilityCmd D)
      (s : Manager D Q (Scheduler T F C)) (n : Node D Q) (j : ℤ) (is : List ℕ)
      → e.payload ≡ mobility cmd
      → cmd.cmd_type ≡ add_nodes
      → cmd.node_id ≡ map pos is
      → create s.veh_module_type ≡ some n
      → n.proxy ≡ some j
      → s.proxy_in ≡ s.proxy_out
      → Settles create n j is cmd.position s.proxy_out (nodes_of s) (handle_message k ch create e s)
  unfolding handle_message mobility_command
  handle_message-Settles create e cmd s n j is p q ids known proxied even =
      rw (p, q, ids) (for_nodes-Settles create n j is cmd.position s known proxied even)
