-- ===== src/Mobility/Tests.antt =====
-- A base class that sets the position in its second stage, and where a node is then.
use omnetpp_federate.Prelude.{
  ℕ, ◌≡◌, refl, inl, inr, Bool, Bool-cases, true, false, ◌==◌, ◌&&◌, [], ◌∷◌, if◌then◌else◌,
}
use omnetpp_federate.Prelude.Int.{ℤ, pos, eq_ℤ}
use omnetpp_federate.Messages.{Coord}
use omnetpp_federate.Mobility.{Mobility, set_external_id, set_next_position, set_initial_position}
use omnetpp_federate.Mobility.Initial.{BaseLaws, through, through-set_next_position}

abbrev is_nil : Coord ℕ → Bool
is_nil c = c.x == 0 && (c.y == 0 && c.z == 0)

abbrev initial : Mobility ℕ ℕ → Mobility ℕ ℕ
initial m = record m { last_position = record { x = 1; y = 1; z = 1 } }

abbrev base : ℤ → Mobility ℕ ℕ → Mobility ℕ ℕ
base stage m = if eq_ℤ stage (pos 1) then set_initial_position is_nil initial m else m

base-BaseLaws : BaseLaws is_nil initial base
base-BaseLaws = record {
  keeps_or_sets = λ stage m. elim (Bool-cases (eq_ℤ stage (pos 1))) [
    | inl e ↦ inr (rw e refl)
    | inr e ↦ inl (rw e refl)
  ];
}

abbrev fresh : Mobility ℕ ℕ
fresh = record {
  external_id = pos 0;
  last_position = record { x = 0; y = 0; z = 0 };
  last_orientation = 0;
  changes = 0;
  debug = false;
}

abbrev begun : Mobility ℕ ℕ
begun =
    through is_nil initial base true (pos 0 ∷ pos 1 ∷ pos 2 ∷ [])
      (set_next_position (record { x = 3; y = 4; z = 0 }) (set_external_id (pos 7) fresh))

through-set_next_position_example : begun.last_position ≡ record { x = 3; y = 4; z = 0 }
through-set_next_position_example =
    through-set_next_position is_nil initial base base-BaseLaws true (pos 0 ∷ pos 1 ∷ pos 2 ∷ [])
      (pos 7) 3 4 0 fresh refl
