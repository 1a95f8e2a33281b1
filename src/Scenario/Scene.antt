-- ===== src/Scenario/Scene.antt =====
-- The mobility commands of src/mgmt/MosaicScenarioManager.cc as operations on a map from ids to nodes.
pub mod Commands
use Prim.Native.String.{String}
use mathlib.Core.Path.{fun_ext}
use omnetpp_federate.Prelude.{
  suc, ◌≡◌, refl, Option, none, some, if◌then◌else◌, true, false, Option-cases, Bool-cases, inl,
  inr, ◌∙◌, ap,
}
use omnetpp_federate.Prelude.Int.{ℤ, to_u32, eq_ℤ, eq_ℤ_iff}
use omnetpp_federate.Prelude.Outcome.{Then, >>=-Then, ◌>>=◌}
use omnetpp_federate.Prelude.Dict.{lookup, insert, lookup-insert, lookup-erase}
use omnetpp_federate.Messages.{Coord}
use omnetpp_federate.Scenario.{
  Manager, Node, Creator, has_gate, place_mobility, is_index, add_module, connect_proxy, start_node,
  with_node, add_as, move_node, remove_node,
}
use omnetpp_federate.Scenario.Positions.{shift}
use omnetpp_federate.Scenario.Removing.{nodes_of, drop_key}

abbrev pub Scene : Type 0 → Type 0 → Type 0
Scene D Q = ℤ → Option (Node D Q)

module _ {D Q : Type 0} where
  -- A new node: its proxy application and its mobility module have its id, and it is placed and
  -- initialised.
  abbrev connected : ℤ → Node D Q → Node D Q
  connected id n = record n { proxy = elim n.proxy [ none ↦ none | some old ↦ some id ] }

  abbrev settled : ℤ → Coord D → Option (Node D Q) → Option (Node D Q)
  settled id p none = none
  settled id p (some n) =
      some
        (record (connected id n) { mobility = place_mobility id p n.mobility; initialized = true })

  -- With one node more, made from the module `o`, and with one node moved.
  abbrev pub add_one : Option (Node D Q) → ℤ → Coord D → Scene D Q → Scene D Q
  add_one o id p f i = if eq_ℤ i id then settled id p o else f i

  abbrev shifted : Coord D → Option (Node D Q) → Option (Node D Q)
  shifted p none = none
  shifted p (some n) = some (shift p n)

  abbrev pub move_one : ℤ → Coord D → Scene D Q → Scene D Q
  move_one id p f i = if eq_ℤ i id then shifted p (f i) else f i

module _ {D Q S : Type 0} (create : Creator D Q) (v r : Option (Node D Q)) where
  -- The modules are those of the manager's types.
  pub record IsTyped (s : Manager D Q S) : Type 0 where
    pub vehicle : create s.veh_module_type ≡ v
    pub rsu : create s.rsu_module_type ≡ r

  abbrev pub Becomes : Scene D Q → Manager D Q S → Type 0
  Becomes f t = (nodes_of t ≡ f) × IsTyped t

  -- The node with the id is `m`, the others are as in `s`.
  record Holds (s : Manager D Q S) (id : ℤ) (m : Node D Q) (t : Manager D Q S) : Type 0 where
    here : lookup id t.nodes ≡ some m
    others : (i : ℤ) → eq_ℤ i id ≡ false → lookup i t.nodes ≡ lookup i s.nodes
    typed : IsTyped t

  Holds-insert :
      (s : Manager D Q S) (id : ℤ) (n : Node D Q) (t u : Manager D Q S)
      → u.nodes ≡ insert id n t.nodes
      → u.veh_module_type ≡ t.veh_module_type
      → u.rsu_module_type ≡ t.rsu_module_type
      → ((i : ℤ) → eq_ℤ i id ≡ false → lookup i t.nodes ≡ lookup i s.nodes)
      → IsTyped t
      → Holds s id n u
  Holds-insert s id n t u is ve ru others typed = record {
    here = ap (lookup id) is ∙ lookup-insert id id n t.nodes ∙ rw ((eq_ℤ_iff id id).1 refl) refl;
    others = λ i q. ap (lookup i) is ∙ lookup-insert i id n t.nodes ∙ rw q (others i q);
    typed = record { vehicle = ap create ve ∙ typed.vehicle; rsu = ap create ru ∙ typed.rsu };
  }

  add_module-Holds :
      (id : ℤ) (type name : String) (n : Node D Q) (s : Manager D Q S)
      → create type ≡ some n
      → IsTyped s
      → Then (add_module create id type name s) (Holds s id n)
  unfolding add_module
  add_module-Holds id type name n s made typed = elim (Option-cases (lookup id s.nodes)) [
    | inr (x, e) ↦ rw (Then, add_module, e) tt
    | inl e ↦ elim (Bool-cases (is_index (to_u32 id))) [
      | inl r ↦
          rw (Then, add_module, e, made, r)
            (Holds-insert s id n s _ refl refl refl (λ i q. refl) typed)
      | inr r ↦ rw (Then, add_module, e, made, r) tt
    ]
  ]

  connect_proxy-Holds :
      (id : ℤ) (n : Node D Q) (s t : Manager D Q S)
      → Holds s id n t
      → Then (connect_proxy id n t) (Holds s id (connected id n))
  unfolding connect_proxy
  connect_proxy-Holds id n s t h = elim (Option-cases n.proxy) [
    | inl e ↦
        rw (Then, connect_proxy, e)
          (record {
            here = h.here ∙ ap (λ (o : Option ℤ). some (record n { proxy = o })) e;
            others = h.others;
            typed = h.typed;
          })
    | inr (old, e) ↦ elim (Bool-cases (has_gate (suc t.proxy_out) id)) [
      | inr g ↦ rw (Then, connect_proxy, e, g) tt
      | inl g ↦ elim (Bool-cases (has_gate (suc t.proxy_in) id)) [
        | inr q ↦ rw (Then, connect_proxy, e, g, q) tt
        | inl q ↦
            rw (Then, connect_proxy, e, g, q)
              (Holds-insert s id _ t _ refl refl refl h.others h.typed)
      ]
    ]
  ]

  start_node-Becomes :
      (id : ℤ) (p : Coord D) (n : Node D Q) (s t : Manager D Q S)
      → Holds s id (connected id n) t
      → Then (start_node id p (connected id n) t) (Becomes (add_one (some n) id p (nodes_of s)))
  unfolding start_node
  start_node-Becomes id p n s t h =
      let m : Node D Q = record (connected id n) {
        mobility = place_mobility id p n.mobility;
        initialized = true;
      } in
      let u : Manager D Q S = record t { nodes = insert id m t.nodes } in
      let g : Holds s id m u = Holds-insert s id m t u refl refl refl h.others h.typed in
      (
        fun_ext (λ i. elim (Bool-cases (eq_ℤ i id)) [
          | inl q ↦ rw (q, (eq_ℤ_iff i id).0 q) g.here
          | inr q ↦ rw q (g.others i q)
        ]),
        g.typed,
      )

  pub add_as-Becomes :
      (type name : String) (id : ℤ) (p : Coord D) (s : Manager D Q S)
      → IsTyped s
      → Then (add_as create type name id p s) (Becomes (add_one (create type) id p (nodes_of s)))
  unfolding add_as add_module
  add_as-Becomes type name id p s typed = elim (Option-cases (lookup id s.nodes)) [
    | inr (n, e) ↦ rw (Then, add_as, e) tt
    | inl e ↦ elim (Option-cases (create type)) [
      | inl q ↦ rw (Then, add_as, e, add_module, e, q) tt
      | inr (n, q) ↦
          rw (add_as, e, q)
            (>>=-Then (Holds s id (connected id n)) (Becomes (add_one (some n) id p (nodes_of s)))
              (add_module create id type name s >>= with_node id (connect_proxy id))
              (with_node id (start_node id p))
              (>>=-Then (Holds s id n) (Holds s id (connected id n))
                (add_module create id type name s) (with_node id (connect_proxy id))
                (add_module-Holds id type name n s q typed)
                (λ t h. rw (with_node, h.here) (connect_proxy-Holds id n s t h)))
              (λ t h. rw (with_node, h.here) (start_node-Becomes id p n s t h)))
    ]
  ]

  pub move_node-Becomes :
      (id : ℤ) (p : Coord D) (s : Manager D Q S)
      → IsTyped s
      → Then (move_node id p s) (Becomes (move_one id p (nodes_of s)))
  unfolding move_node
  move_node-Becomes id p s typed = elim (Option-cases (lookup id s.nodes)) [
    | inl e ↦
        rw (Then, move_node, e)
          (
            fun_ext (λ i. elim (Bool-cases (eq_ℤ i id)) [
              | inl q ↦ rw (q, (eq_ℤ_iff i id).0 q, e) refl
              | inr q ↦ rw q refl
            ]),
            typed,
          )
    | inr (n, e) ↦
        rw (Then, move_node, e)
          (
            fun_ext (λ i. elim (Bool-cases (eq_ℤ i id)) [
              | inl q ↦ rw (lookup-insert i id (shift p n) s.nodes, q, (eq_ℤ_iff i id).0 q, e) refl
              | inr q ↦ rw (lookup-insert i id (shift p n) s.nodes, q) refl
            ]),
            record { vehicle = typed.vehicle; rsu = typed.rsu },
          )
  ]

  pub remove_node-Becomes :
      (id : ℤ) (s : Manager D Q S)
      → IsTyped s
      → Then (remove_node id s) (Becomes (drop_key id (nodes_of s)))
  unfolding remove_node
  remove_node-Becomes id s typed = elim (Option-cases (lookup id s.nodes)) [
    | inl e ↦ rw (Then, remove_node, e) tt
    | inr (n, e) ↦
        rw (Then, remove_node, e)
          (
            fun_ext (λ i. lookup-erase i id s.nodes),
            record { vehicle = typed.vehicle; rsu = typed.rsu },
          )
  ]
