-- ===== src/Scenario/Adding.antt =====
-- Which nodes `addNode` of src/mgmt/MosaicScenarioManager.cc accepts: the gate of a node has the
-- node's id as its index, while each node adds one gate.
use omnetpp_federate.Prelude.{
  ℕ, suc, ◌≡◌, ◌≤◌, ◌<◌, ◌⊎◌, refl, none, some, arith, if◌then◌else◌, ltb, true, false, Bool-cases,
  inl, inr, ap, ◌∙◌,
}
use omnetpp_federate.Prelude.Int.{ℤ, pos, to_u32, eq_ℤ, eq_ℤ_iff}
use omnetpp_federate.Prelude.Outcome.{stop, Ends, ◌>>=◌, runtime_error}
use omnetpp_federate.Prelude.Dict.{Dict, lookup, insert, lookup-insert}
use omnetpp_federate.Messages.{Coord}
use omnetpp_federate.Scenario.{
  Manager, Node, Creator, place_mobility, add_module, connect_proxy, start_node, with_node, add_as,
  add_node, make_room, is_index,
}

module _ {D Q : Type 0} where
  -- The new node: connected under its id, placed and initialised.
  abbrev pub placed : ℤ → Coord D → Node D Q → Node D Q
  placed id p n = record n {
    proxy = some id;
    mobility = place_mobility id p n.mobility;
    initialized = true;
  }

  there : (k : ℤ) (m : Node D Q) (d : Dict (Node D Q)) → lookup k (insert k m d) ≡ some m
  there k m d = lookup-insert k k m d ∙ rw ((eq_ℤ_iff k k).1 refl) refl

  -- Of three insertions under one key the last one stays.
  last_one :
      (k i : ℤ) (a b c : Node D Q) (d : Dict (Node D Q))
      → lookup k (insert i c (insert i b (insert i a d)))
        ≡ (if eq_ℤ k i then some c else lookup k d)
  last_one k i a b c d =
      rw
        (
          lookup-insert k i c (insert i b (insert i a d)),
          lookup-insert k i b (insert i a d),
          lookup-insert k i a d,
        )
        (elim (Bool-cases (eq_ℤ k i)) [ inl e ↦ rw e refl | inr e ↦ rw e refl ])

module _ {D Q S : Type 0} where
  connect_proxy_refused :
      (i : ℕ) (n : Node D Q) (j : ℤ) (s : Manager D Q S)
      → n.proxy ≡ some j
      → ltb i (suc s.proxy_out) ≡ false
      → connect_proxy (pos i) n s ≡ stop runtime_error (record s { proxy_out = suc s.proxy_out })
  unfolding connect_proxy
  connect_proxy_refused i n j s proxied g = rw (connect_proxy, proxied, g) refl

  module _ (create : Creator D Q) (i : ℕ) (p : Coord D) (s : Manager D Q S) (n : Node D Q)
      (j : ℤ) where
    -- Behind `addModule`.
    abbrev made : Manager D Q S
    made = record s {
      vectors = make_room s.veh_module_name (to_u32 (pos i)) s.vectors;
      nodes = insert (pos i) n s.nodes;
    }

    add_node-made :
        lookup (pos i) s.nodes ≡ none
        → create s.veh_module_type ≡ some n
        → is_index (to_u32 (pos i)) ≡ true
        → add_node create (pos i) p s
          ≡ (connect_proxy (pos i) n made >>= with_node (pos i) (start_node (pos i) p))
    unfolding add_node add_as add_module
    add_node-made fresh known index =
        rw
          (
            add_node,
            add_as,
            fresh,
            add_module,
            fresh,
            known,
            index,
            with_node,
            there (pos i) n s.nodes,
          )
          refl

    add_node_refused :
        lookup (pos i) s.nodes ≡ none
        → create s.veh_module_type ≡ some n
        → is_index (to_u32 (pos i)) ≡ false
        → add_node create (pos i) p s ≡ stop runtime_error s
    unfolding add_node add_as add_module
    add_node_refused fresh known index =
        rw (add_node, add_as, fresh, add_module, fresh, known, index) refl

    -- A vehicle with a new id, of a known type and with a proxy application, while there are as many
    -- incoming gates as outgoing ones: it is accepted if its id is an index
    -- of OMNeT++ and no greater than that number; then
    -- the nodes are the old ones and the new one, which is connected under its id, placed and
    -- initialised, there is one gate more each way, and the type for the next ones is the same. Else `addNode` throws.
    pub add_node-placed :
        lookup (pos i) s.nodes ≡ none
        → create s.veh_module_type ≡ some n
        → n.proxy ≡ some j
        → s.proxy_in ≡ s.proxy_out
        → ((is_index (to_u32 (pos i)) ≡ true)
            × (i ≤ s.proxy_out)
            × Ends (add_node create (pos i) p s) (λ t.
              (t.veh_module_type ≡ s.veh_module_type)
              × (t.proxy_out ≡ suc s.proxy_out)
              × (t.proxy_in ≡ suc s.proxy_in)
              × ((k : ℤ)
                  → lookup k t.nodes
                    ≡ (if eq_ℤ k (pos i) then some (placed (pos i) p n) else lookup k s.nodes))))
          ⊎ (((is_index (to_u32 (pos i)) ≡ false) ⊎ (s.proxy_out < i))
              × (t : Manager D Q S) × (add_node create (pos i) p s ≡ stop runtime_error t))
    unfolding connect_proxy start_node
    add_node-placed fresh known proxied even = elim (Bool-cases (is_index (to_u32 (pos i)))) [
      | inr far ↦ inr (inl far, s, add_node_refused fresh known far)
      | inl near ↦ elim (Bool-cases (ltb i (suc s.proxy_out))) [
        | inl g ↦ inl (
          near,
          ground arith,
          rw
              (
                add_node-made fresh known near,
                connect_proxy,
                proxied,
                even,
                g,
                with_node,
                there (pos i) (record n { proxy = some (pos i) }) (insert (pos i) n s.nodes),
              )
              (
                refl,
                refl,
                refl,
                λ k.
                    last_one k (pos i) n (record n { proxy = some (pos i) }) (placed (pos i) p n)
                      s.nodes,
              ),
        )
        | inr g ↦ inr (
          inr (ground arith),
          record made { proxy_out = suc s.proxy_out },
          add_node-made fresh known near
              ∙ ap (λ o. o >>= with_node (pos i) (start_node (pos i) p))
                  (connect_proxy_refused i n j made proxied g),
        )
      ]
    ]
