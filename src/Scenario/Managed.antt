-- ===== src/Scenario/Managed.antt =====
-- What holds of every node that src/mgmt/MosaicScenarioManager.cc manages, whatever events arrive.
use Prim.Native.String.{String}
use omnetpp_federate.Prelude.{
  ℕ, suc, ◌≡◌, ◌≢◌, refl, Option, none, some, List, [], ◌∷◌, arith, true, Option-cases, inl, inr,
  Bool-cases, ◌∙◌, ap, sym, subst,
}
use omnetpp_federate.Prelude.Int.{ℤ, pos, negsuc, to_u32, eq_ℤ, eq_ℤ_iff}
use omnetpp_federate.Prelude.Outcome.{Outcome, Then, >>=-Then, ◌>>=◌}
use omnetpp_federate.Prelude.Dict.{lookup, insert, lookup-insert, lookup-erase}
use omnetpp_federate.Messages.{Coord}
use omnetpp_federate.Mobility.{Mobility, set_next_position, set_external_id}
use omnetpp_federate.Scenario.{
  Manager, Node, Creator, has_gate, place_mobility, is_index, add_module, connect_proxy, start_node,
  with_node, add_as, move_node, remove_node, for_nodes, remove_nodes_of,
}

-- The gates with the id as their index are there, and the proxy application has this id.
abbrev Wired : {D Q S : Type 0} → Manager D Q S → ℤ → Node D Q → Type 0
Wired s i n =
    (j : ℤ)
    → n.proxy ≡ some j
    → (j ≡ i) × (has_gate s.proxy_out i ≡ true) × (has_gate s.proxy_in i ≡ true)

pub record Tagged {D Q S : Type 0} (s : Manager D Q S) (i : ℤ) (n : Node D Q) : Type 0 where
  pub wired : Wired s i n
  pub tagged : (m : Mobility D Q) → n.mobility ≡ some m → m.external_id ≡ i
  pub started : n.initialized ≡ true

abbrev pub IsManaged : {D Q S : Type 0} → Manager D Q S → Type 0
IsManaged {D = D} {Q = Q} s = (i : ℤ) (n : Node D Q) → lookup i s.nodes ≡ some n → Tagged s i n

has_gate_more : (size : ℕ) (i : ℤ) → has_gate size i ≡ true → has_gate (suc size) i ≡ true
has_gate_more size (pos i) h = ground arith
has_gate_more size (negsuc i) h = absurd cc

place_mobility-id :
    {D Q : Type 0} (id : ℤ) (p : Coord D) (o : Option (Mobility D Q)) (m : Mobility D Q)
    → place_mobility id p o ≡ some m
    → m.external_id ≡ id
unfolding set_next_position set_external_id
place_mobility-id id p none m e = absurd cc
place_mobility-id id p (some x) m e = ground (arith, e)

shifted-id :
    {D Q : Type 0} (p : Coord D) (o : Option (Mobility D Q)) (m : Mobility D Q)
    → (elim o [ none ↦ none | some x ↦ some (set_next_position p x) ]) ≡ some m
    → (x : Mobility D Q) × (o ≡ some x) × (m.external_id ≡ x.external_id)
unfolding set_next_position
shifted-id p none m e = absurd cc
shifted-id p (some x) m e = (x, refl, ground (arith, e))

module _ {D Q S : Type 0} where
  -- The same of all nodes but one.
  abbrev IsManagedBut : ℤ → Manager D Q S → Type 0
  IsManagedBut id s = (i : ℤ) (n : Node D Q) → i ≢ id → lookup i s.nodes ≡ some n → Tagged s i n

  insert_other :
      (id i : ℤ) (n m : Node D Q) (s : Manager D Q S)
      → i ≢ id
      → lookup i (insert id n s.nodes) ≡ some m
      → lookup i s.nodes ≡ some m
  insert_other id i n m s ne e = ground (arith, e, lookup-insert i id n s.nodes, eq_ℤ_iff i id)

  insert_same :
      (id : ℤ) (n : Node D Q) (s : Manager D Q S) → lookup id (insert id n s.nodes) ≡ some n
  insert_same id n s = lookup-insert id id n s.nodes ∙ rw ((eq_ℤ_iff id id).1 refl) refl

  -- A managed node takes its place among the others.
  insert-IsManaged :
      (id : ℤ) (n : Node D Q) (s : Manager D Q S)
      → IsManagedBut id s
      → Tagged s id n
      → IsManaged (record s { nodes = insert id n s.nodes })
  insert-IsManaged id n s but t i m e = elim (Bool-cases (eq_ℤ i id)) [
    | inl q ↦
        let same = (eq_ℤ_iff i id).0 q in
        let is : n ≡ m =
          ground (arith, insert_same id n s, ap (λ j. lookup j (insert id n s.nodes)) same, e) in
        let u : Tagged s i m =
          subst (λ x. Tagged s i x) is (subst (λ j. Tagged s j n) (sym same) t) in
        record { wired = u.wired; tagged = u.tagged; started = u.started }
    | inr q ↦
        let ne : i ≢ id = λ h. ground (arith, h, (eq_ℤ_iff i id).1 h, q) in
        let u = but i m ne (insert_other id i n m s ne e) in
        record { wired = u.wired; tagged = u.tagged; started = u.started }
  ]

  -- The node with the id is there, wired if it has a proxy application.
  record Raw (id : ℤ) (P : Node D Q → Type 0) (s : Manager D Q S) : Type 0 where
    node : Node D Q
    there : lookup id s.nodes ≡ some node
    holds : P node
    rest : IsManagedBut id s

  add_module-Raw :
      (create : Creator D Q) (id : ℤ) (type name : String) (s : Manager D Q S)
      → IsManaged s
      → Then (add_module create id type name s) (Raw id (λ n. Unit))
  unfolding add_module
  add_module-Raw create id type name s h = elim (Option-cases (lookup id s.nodes)) [
    | inr (n, e) ↦ rw (Then, add_module, e) tt
    | inl e ↦ elim (Option-cases (create type)) [
      | inl q ↦ rw (Then, add_module, e, q) tt
      | inr (n, q) ↦ elim (Bool-cases (is_index (to_u32 id))) [
        | inl r ↦
            rw (Then, add_module, e, q, r)
              (record {
                node = n;
                there = insert_same id n s;
                holds = tt;
                rest = λ i m ne l.
                    let u = h i m (insert_other id i n m s ne l) in
                    record { wired = u.wired; tagged = u.tagged; started = u.started };
              })
        | inr r ↦ rw (Then, add_module, e, q, r) tt
      ]
    ]
  ]

  connect_proxy-Raw :
      (id : ℤ) (n : Node D Q) (s : Manager D Q S)
      → lookup id s.nodes ≡ some n
      → IsManagedBut id s
      → Then (connect_proxy id n s) (λ t. Raw id (Wired t id) t)
  unfolding connect_proxy
  connect_proxy-Raw id n s l but = elim (Option-cases n.proxy) [
    | inl e ↦
        rw (Then, connect_proxy, e)
          (record { node = n; there = l; holds = λ j q. absurd cc; rest = but })
    | inr (old, e) ↦ elim (Bool-cases (has_gate (suc s.proxy_out) id)) [
      | inr g ↦ rw (Then, connect_proxy, e, g) tt
      | inl g ↦ elim (Bool-cases (has_gate (suc s.proxy_in) id)) [
        | inr q ↦ rw (Then, connect_proxy, e, g, q) tt
        | inl q ↦
            rw (Then, connect_proxy, e, g, q)
              (record {
                node = record n { proxy = some id };
                there = insert_same id (record n { proxy = some id }) s;
                holds = λ j w. (ground (arith, w), g, q);
                rest = λ i m ne w.
                    let u =
                      but i m ne (insert_other id i (record n { proxy = some id }) m s ne w) in
                    record {
                      wired = λ j r.
                          let (a, b, c) = u.wired j r in
                          (a, has_gate_more s.proxy_out i b, has_gate_more s.proxy_in i c);
                      tagged = u.tagged;
                      started = u.started;
                    };
              })
      ]
    ]
  ]

  start_node-IsManaged :
      (id : ℤ) (p : Coord D) (n : Node D Q) (s : Manager D Q S)
      → IsManagedBut id s
      → Wired s id n
      → Then (start_node id p n s) IsManaged
  unfolding start_node
  start_node-IsManaged id p n s but w =
      insert-IsManaged id
        (record n { mobility = place_mobility id p n.mobility; initialized = true }) s but
        (record { wired = w; tagged = place_mobility-id id p n.mobility; started = refl })

  pub add_as-IsManaged :
      (create : Creator D Q) (type name : String) (id : ℤ) (p : Coord D) (s : Manager D Q S)
      → IsManaged s
      → Then (add_as create type name id p s) IsManaged
  unfolding add_as
  add_as-IsManaged create type name id p s h = elim (Option-cases (lookup id s.nodes)) [
    | inr (n, e) ↦ rw (Then, add_as, e) tt
    | inl e ↦
        rw (add_as, e)
          (>>=-Then (λ t. Raw id (Wired t id) t) IsManaged
            (add_module create id type name s >>= with_node id (connect_proxy id))
            (with_node id (start_node id p))
            (>>=-Then (Raw id (λ n. Unit)) (λ t. Raw id (Wired t id) t)
              (add_module create id type name s) (with_node id (connect_proxy id))
              (add_module-Raw create id type name s h)
              (λ t r. rw (with_node, r.there) (connect_proxy-Raw id r.node t r.there r.rest)))
            (λ t r. rw (with_node, r.there) (start_node-IsManaged id p r.node t r.rest r.holds)))
  ]

  pub move_node-IsManaged :
      (id : ℤ) (p : Coord D) (s : Manager D Q S) → IsManaged s → Then (move_node id p s) IsManaged
  unfolding move_node
  move_node-IsManaged id p s h = elim (Option-cases (lookup id s.nodes)) [
    | inl e ↦ rw (move_node, e) h
    | inr (n, e) ↦
        let t = h id n e in
        rw (move_node, e)
          (insert-IsManaged id _ s (λ i m ne l. h i m l)
            (record {
              wired = t.wired;
              tagged = λ m q. let (x, a, b) = shifted-id p n.mobility m q in b ∙ t.tagged x a;
              started = t.started;
            }))
  ]

  remove_node-IsManaged :
      (id : ℤ) (s : Manager D Q S) → IsManaged s → Then (remove_node id s) IsManaged
  unfolding remove_node
  remove_node-IsManaged id s h = elim (Option-cases (lookup id s.nodes)) [
    | inl e ↦ rw (Then, remove_node, e) tt
    | inr (n, e) ↦
        rw (remove_node, e)
          (λ i m l.
            let u = h i m (ground (arith, l, lookup-erase i id s.nodes)) in
            record { wired = u.wired; tagged = u.tagged; started = u.started })
  ]

  pub for_nodes-IsManaged :
      (op : ℤ → Coord D → Manager D Q S → Outcome (Manager D Q S))
      → ((id : ℤ) (p : Coord D) (s : Manager D Q S) → IsManaged s → Then (op id p s) IsManaged)
      → (ids : List ℤ) (ps : List (Coord D)) (s : Manager D Q S) → IsManaged s
      → Then (for_nodes op ids ps s) IsManaged
  unfolding for_nodes
  for_nodes-IsManaged op ok [] ps s h = h
  for_nodes-IsManaged op ok (id ∷ ids) [] s h = tt
  for_nodes-IsManaged op ok (id ∷ ids) (p ∷ ps) s h =
      >>=-Then IsManaged IsManaged (op id p s) (for_nodes op ids ps) (ok id p s h)
        (λ t g. for_nodes-IsManaged op ok ids ps t g)

  pub remove_nodes_of-IsManaged :
      (ids : List ℤ) (s : Manager D Q S) → IsManaged s → Then (remove_nodes_of ids s) IsManaged
  unfolding remove_nodes_of
  remove_nodes_of-IsManaged [] s h = h
  remove_nodes_of-IsManaged (id ∷ ids) s h =
      >>=-Then IsManaged IsManaged (remove_node id s) (remove_nodes_of ids)
        (remove_node-IsManaged id s h) (λ t g. remove_nodes_of-IsManaged ids t g)
