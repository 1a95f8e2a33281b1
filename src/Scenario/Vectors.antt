-- ===== src/Scenario/Vectors.antt =====
-- The submodule vectors that `addModule` of src/mgmt/MosaicScenarioManager.cc enlarges.
use Prim.Native.String.{String}
use text.Mathlib.Text.{◌==◌ as str_eq}
use text.Mathlib.TextEquality.{eq_iff}
use omnetpp_federate.Prelude.{
  Option, none, ℕ, ◌+◌, ◌-◌, ◌^◌, ◌%◌, ◌<◌, ◌≤◌, ◌≡◌, ◌⊎◌, refl, some, none, Option-cases, List, [],
  ◌∷◌, leb, arith, if◌then◌else◌, Bool-cases, inl, inr, sym, subst,
}
use omnetpp_federate.Prelude.Int.{ℤ, to_u32}
use omnetpp_federate.Prelude.Outcome.{stop, Ends, runtime_error}
use omnetpp_federate.Prelude.Dict.{lookup}
use omnetpp_federate.Scenario.{
  Manager, Node, Creator, vector_size, set_size, make_room, is_index, add_module,
}

vector_size-set_size :
    (i name : String) (size : ℕ) (vs : List (String × ℕ))
    → vector_size i (set_size name size vs)
      ≡ (if str_eq name i then some size else vector_size i vs)
unfolding vector_size set_size
vector_size-set_size i name size [] = ground arith
vector_size-set_size i name size ((n, old) ∷ vs) =
    ground (arith, eq_iff name i, eq_iff n name, eq_iff n i, vector_size-set_size i name size vs)

-- The size of a vector, zero if there is none.
abbrev places : Option ℕ → ℕ
places none = 0
places (some size) = size

-- The vectors `ws` are `vs`, but for one, which is longer than the index and no shorter than before.
abbrev pub HasPlace : String → ℕ → List (String × ℕ) → List (String × ℕ) → Type 0
HasPlace name index vs ws =
    (size : ℕ) × (index < size)
    × (places (vector_size name vs) ≤ size)
    × ((i : String) → vector_size i ws ≡ (if str_eq name i then some size else vector_size i vs))

set_size-HasPlace :
    (name : String) (index : ℕ) (vs : List (String × ℕ))
    → index < 2 ^ 32 - 1
    → places (vector_size name vs) ≤ index
    → HasPlace name index vs (set_size name ((index + 1) % 2 ^ 32) vs)
set_size-HasPlace name index vs small below =
    let size : ℕ = (index + 1) % 2 ^ 32 in
    let grown : size ≡ index + 1 = omega arith in
    (size, omega arith, omega arith, λ i. vector_size-set_size i name size vs)

make_room-HasPlace :
    (name : String) (index : ℕ) (vs : List (String × ℕ))
    → index < 2 ^ 32 - 1
    → HasPlace name index vs (make_room name index vs)
unfolding make_room
make_room-HasPlace name index vs small =
    let larger : List (String × ℕ) = set_size name ((index + 1) % 2 ^ 32) vs in
    elim (Option-cases (vector_size name vs)) [
      | inl e ↦
          let made : make_room name index vs ≡ larger = rw (make_room, e) refl in
          let below : places (vector_size name vs) ≤ index = rw e (omega arith) in
          subst (HasPlace name index vs) (sym made) (set_size-HasPlace name index vs small below)
      | inr (size, e) ↦ elim (Bool-cases (leb size index)) [
        | inl q ↦
            let made : make_room name index vs ≡ larger = rw (make_room, e, q) refl in
            let below : places (vector_size name vs) ≤ index = rw e (ground arith) in
            subst (HasPlace name index vs) (sym made) (set_size-HasPlace name index vs small below)
        | inr q ↦
            let made : make_room name index vs ≡ vs = rw (make_room, e, q) refl in
            let same : places (vector_size name vs) ≤ size = rw e (omega arith) in
            subst (HasPlace name index vs) (sym made)
              (size, ground arith, same, λ i. ground (arith, e, eq_iff name i))
      ]
    ]

module _ {D Q S : Type 0} where
  -- A new node of a known type gets a place in the vector of the given name if its id, cast to an
  -- unsigned index, is below 2 ^ 31 - 1, so that the size behind it is an `int`: then the vector is
  -- behind the call longer than the index and not shorter than before, and the other vectors are as
  -- before. With any other id, as each negative one, `addModule` throws.
  pub add_module-HasPlace :
      (create : Creator D Q) (id : ℤ) (type name : String) (n : Node D Q) (s : Manager D Q S)
      → lookup id s.nodes ≡ none
      → create type ≡ some n
      → ((to_u32 id < 2 ^ 31 - 1)
          × Ends
              (add_module create id type name s)
              (λ t. HasPlace name (to_u32 id) s.vectors t.vectors))
        ⊎ ((2 ^ 31 - 1 ≤ to_u32 id) × (add_module create id type name s ≡ stop runtime_error s))
  unfolding add_module
  add_module-HasPlace create id type name n s fresh known =
      elim (Bool-cases (is_index (to_u32 id))) [
        | inl near ↦ inl (
          ground arith,
          rw (add_module, fresh, known, near)
              (make_room-HasPlace name (to_u32 id) s.vectors (ground arith)),
        )
        | inr far ↦ inr (ground arith, rw (add_module, fresh, known, far) refl)
      ]
