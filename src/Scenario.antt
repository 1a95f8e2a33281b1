-- ===== src/Scenario.antt =====
-- The scenario manager, src/mgmt/MosaicScenarioManager.h and .cc: the nodes of the simulation and
-- what is done to one of them. `Handlers` are the events.
pub mod Handlers
pub mod Ending
pub mod Reports
pub mod Vectors
pub mod Settling
pub mod Removing
pub mod Positions
pub mod Scene
pub mod Adding
pub mod Updates
pub mod Managed
pub mod Invariant
pub mod Tests
use Prim.Native.String.{String}
use text.Mathlib.Text.{◌==◌ as str_eq}
use omnetpp_federate.Prelude.{
  ℕ, suc, ◌+◌, ◌%◌, ◌^◌, Bool, true, false, Option, none, some, List, [], ◌∷◌, ◌++◌, map, ltb, leb,
  if◌then◌else◌,
}
use omnetpp_federate.Prelude.Int.{ℤ, pos, negsuc, to_u32}
use omnetpp_federate.Prelude.Outcome.{Outcome, done, stop, ◌>>=◌, null_pointer, runtime_error}
use omnetpp_federate.Prelude.Dict.{Dict, lookup, insert, erase}
use omnetpp_federate.Messages.{Coord}
use omnetpp_federate.Mobility.{Mobility, set_external_id, set_next_position}
use omnetpp_federate.Scheduler.Simulation.{Payload, mobility}

-- A node's module, as far as the manager reaches into it. `proxy` is the external id of the
-- submodule "proxyApp", if that is a `MosaicProxyApp`, and `mobility` the submodule of this name,
-- if it is a `MosaicMobility`; `others` are its further submodules of that class.
pub record Node (D Q : Type 0) : Type 0 where
  pub proxy : Option ℤ
  pub mobility : Option (Mobility D Q)
  pub others : List (Mobility D Q)
  pub has_wlan0 : Bool
  pub has_wlan1 : Bool
  pub initialized : Bool

-- What leaves by the gate `mosaicProxyOut` of this index. A packet has a chunk of `bytes` bytes.
pub record Sending (D : Type 0) : Type 0 where
  pub gate : ℤ
  pub payload : Payload D
  pub bytes : ℤ

-- What happens to a node's module in the end.
pub data Removal : Type 0 where
  call_finish : ℤ → Removal
  delete_submodule : ℤ → String → Removal
  delete_module : ℤ → Removal

pub record Manager (D Q S : Type 0) : Type 0 where
  pub veh_module_type : String
  pub veh_module_name : String
  pub rsu_module_type : String
  pub rsu_module_name : String
  pub nodes : Dict (Node D Q)
  pub vectors : List (String × ℕ)  -- the submodule vectors of the parent module, with their sizes
  pub proxy_out : ℕ  -- the gate sizes
  pub proxy_in : ℕ
  pub sent : List (Sending D)
  pub removals : List Removal
  pub once : Bool  -- the static variable of `finish`
  pub sched : S  -- the scheduler

-- The module of a type, if there is a type of that name.
abbrev pub Creator : Type 0 → Type 0 → Type 0
Creator D Q = String → Option (Node D Q)

-- `hasSubmoduleVector` and the size
pub vector_size : String → List (String × ℕ) → Option ℕ
vector_size name [] = none
vector_size name ((n, size) ∷ vs) = if str_eq n name then some size else vector_size name vs

pub set_size : String → ℕ → List (String × ℕ) → List (String × ℕ)
set_size name size [] = (name, size) ∷ []
set_size name size ((n, old) ∷ vs) =
    if str_eq n name then (n, size) ∷ vs else (n, old) ∷ set_size name size vs

-- The index is unsigned, but OMNeT++ takes the size of a vector and an index in it as `int`, and a
-- negative size is an error, as is the index -1, which stands for no vector while the name is that of one.
abbrev pub is_index : ℕ → Bool
is_index index = ltb (index + 1) (2 ^ 31)

-- The vector gets a place for the index.
pub make_room : String → ℕ → List (String × ℕ) → List (String × ℕ)
unfolding vector_size set_size
make_room name index vs = elim (vector_size name vs) [
  | none ↦ set_size name ((index + 1) % 2 ^ 32) vs
  | some size ↦ if leb size index then set_size name ((index + 1) % 2 ^ 32) vs else vs
]

-- `gate(name, id)` throws unless the id is an index below the size.
abbrev pub has_gate : ℕ → ℤ → Bool
has_gate size (pos i) = ltb i size
has_gate size (negsuc i) = false

module _ {D Q : Type 0} where
  abbrev pub place_mobility : ℤ → Coord D → Option (Mobility D Q) → Option (Mobility D Q)
  place_mobility id p none = none
  place_mobility id p (some m) = some (set_next_position p (set_external_id id m))

  -- The radios go first.
  pub removal : ℤ → Node D Q → List Removal
  removal id n =
      (call_finish id ∷ [])
      ++ (if n.has_wlan0 then delete_submodule id "wlan0" ∷ [] else [])
      ++ (if n.has_wlan1 then delete_submodule id "wlan1" ∷ [] else [])
      ++ (delete_module id ∷ [])

module _ {D Q S : Type 0} where
  pub add_module : Creator D Q → ℤ → String → String → Manager D Q S → Outcome (Manager D Q S)
  unfolding make_room
  add_module create id type name s = elim (lookup id s.nodes) [
    | some n ↦ stop runtime_error s
    | none ↦ elim (create type) [
      | none ↦ stop runtime_error s
      | some n ↦
          if is_index (to_u32 id)
          then done (record s {
            vectors = make_room name (to_u32 id) s.vectors;
            nodes = insert id n s.nodes;
          })
          else stop runtime_error s
    ]
  ]

  -- One more gate each way, and the connections by the gates whose index is the id.
  pub connect_proxy : ℤ → Node D Q → Manager D Q S → Outcome (Manager D Q S)
  connect_proxy id n s = elim n.proxy [
    | none ↦ done s
    | some old ↦
        let t : Manager D Q S = record s { proxy_out = suc s.proxy_out } in
        if has_gate t.proxy_out id
        then (let u : Manager D Q S = record t { proxy_in = suc t.proxy_in } in
            if has_gate u.proxy_in id
            then done (record u { nodes = insert id (record n { proxy = some id }) u.nodes })
            else stop runtime_error u)
        else stop runtime_error t
  ]

  -- The initial position, and `callInitialize`.
  pub start_node : ℤ → Coord D → Node D Q → Manager D Q S → Outcome (Manager D Q S)
  start_node id p n s = done (record s {
    nodes =
        insert id (record n { mobility = place_mobility id p n.mobility; initialized = true })
          s.nodes;
  })

  -- The module with the id, which has just been made or connected.
  abbrev pub with_node :
      ℤ
      → (Node D Q → Manager D Q S → Outcome (Manager D Q S))
      → Manager D Q S
      → Outcome (Manager D Q S)
  with_node id f s = elim (lookup id s.nodes) [ none ↦ stop null_pointer s | some n ↦ f n s ]

  -- `addNode` and `addRsuNode`, which differ in the type and the name of the module.
  pub add_as : Creator D Q → String → String → ℤ → Coord D → Manager D Q S → Outcome (Manager D Q S)
  unfolding add_module connect_proxy start_node
  add_as create type name id p s = elim (lookup id s.nodes) [
    | some n ↦ stop runtime_error s
    | none ↦
        add_module create id type name s
        >>= with_node id (connect_proxy id)
        >>= with_node id (start_node id p)
  ]

  pub add_node : Creator D Q → ℤ → Coord D → Manager D Q S → Outcome (Manager D Q S)
  unfolding add_as
  add_node create id p s = add_as create s.veh_module_type s.veh_module_name id p s

  pub add_rsu_node : Creator D Q → ℤ → Coord D → Manager D Q S → Outcome (Manager D Q S)
  unfolding add_as
  add_rsu_node create id p s = add_as create s.rsu_module_type s.rsu_module_name id p s

  -- A node that is not known is only warned about.
  pub move_node : ℤ → Coord D → Manager D Q S → Outcome (Manager D Q S)
  move_node id p s = elim (lookup id s.nodes) [
    | none ↦ done s
    | some n ↦ done (record s {
      nodes =
          insert id
            (record n {
              mobility = elim n.mobility [ none ↦ none | some m ↦ some (set_next_position p m) ];
              others = map (set_next_position p) n.others;
            })
            s.nodes;
    })
  ]

  pub remove_node : ℤ → Manager D Q S → Outcome (Manager D Q S)
  unfolding removal
  remove_node id s = elim (lookup id s.nodes) [
    | none ↦ stop runtime_error s
    | some n ↦ done (record s { nodes = erase id s.nodes; removals = s.removals ++ removal id n })
  ]

  -- The loops of `handleMessage`; `getPosition` throws behind the end of its array.
  pub for_nodes :
      (ℤ → Coord D → Manager D Q S → Outcome (Manager D Q S))
      → List ℤ
      → List (Coord D)
      → Manager D Q S
      → Outcome (Manager D Q S)
  for_nodes op [] ps s = done s
  for_nodes op (id ∷ ids) [] s = stop runtime_error s
  for_nodes op (id ∷ ids) (p ∷ ps) s = op id p s >>= for_nodes op ids ps

  pub remove_nodes_of : List ℤ → Manager D Q S → Outcome (Manager D Q S)
  remove_nodes_of [] s = done s
  remove_nodes_of (id ∷ ids) s = remove_node id s >>= remove_nodes_of ids

  get_managed_module : ℤ → Manager D Q S → Option (Node D Q)
  get_managed_module id s = lookup id s.nodes
