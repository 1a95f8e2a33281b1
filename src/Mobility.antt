-- ===== src/Mobility.antt =====
-- The mobility module of a node, src/node/MosaicMobility.h and .cc: the state that the federate
-- keeps. `Q` is INET's quaternion, and `changes` counts the emitted state-changed signals.
pub mod Initial
pub mod Tests
use omnetpp_federate.Prelude.{ℕ, suc, Bool, if◌then◌else◌}
use omnetpp_federate.Prelude.Int.{ℤ, pos, eq_ℤ}
use omnetpp_federate.Messages.{Coord}

pub record Mobility (D Q : Type 0) : Type 0 where
  pub external_id : ℤ
  pub last_position : Coord D
  pub last_orientation : Q
  pub changes : ℕ
  pub debug : Bool

module _ {D Q : Type 0} where
  unfoldable pub set_external_id : ℤ → Mobility D Q → Mobility D Q
  set_external_id id m = record m { external_id = id }

  unfoldable pub set_next_position : Coord D → Mobility D Q → Mobility D Q
  set_next_position next m = record m {
    last_position = record { x = next.x; y = next.y; z = next.z };
    changes = suc m.changes;
  }

  -- `next` is the quaternion of the Euler angles.
  set_next_orientation : Q → Mobility D Q → Mobility D Q
  set_next_orientation next m = record m { last_orientation = next; changes = suc m.changes }

  -- `is_nil` compares with `inet::Coord::NIL`, `base` is the method of `inet::MobilityBase`.
  pub set_initial_position :
      (Coord D → Bool) → (Mobility D Q → Mobility D Q) → Mobility D Q → Mobility D Q
  set_initial_position is_nil base m = if is_nil m.last_position then base m else m

  -- `base` is `inet::MobilityBase::initialize`, `par_debug` the parameter "debug".
  pub initialize : (ℤ → Mobility D Q → Mobility D Q) → Bool → ℤ → Mobility D Q → Mobility D Q
  initialize base par_debug stage m =
      let n : Mobility D Q = base stage m in
      if eq_ℤ stage (pos 1) then record n { debug = par_debug } else n

  get_current_position : Mobility D Q → Coord D
  get_current_position m = m.last_position

  get_current_angular_position : Mobility D Q → Q
  get_current_angular_position m = m.last_orientation

  -- `inet::Coord::ZERO`, `nil` being the zero of `double`: a node jumps from place to place.
  get_current_velocity : D → Mobility D Q → Coord D
  get_current_velocity nil m = record { x = nil; y = nil; z = nil }

  get_current_acceleration : D → Mobility D Q → Coord D
  get_current_acceleration nil m = record { x = nil; y = nil; z = nil }

  -- The turning, of which there is none: `still` is `inet::Quaternion::IDENTITY`.
  get_current_angular_velocity : Q → Mobility D Q → Q
  get_current_angular_velocity still m = still

  get_current_angular_acceleration : Q → Mobility D Q → Q
  get_current_angular_acceleration still m = still

  -- `double_of` is the conversion of an integer.
  get_max_speed : (ℕ → D) → Mobility D Q → D
  get_max_speed double_of m = double_of 9999

  get_constraint_area_max : D → Mobility D Q → Coord D
  get_constraint_area_max nil m = record { x = nil; y = nil; z = nil }

  get_constraint_area_min : D → Mobility D Q → Coord D
  get_constraint_area_min nil m = record { x = nil; y = nil; z = nil }

  -- A self message is ignored.
  handle_self_message : Mobility D Q → Mobility D Q
  handle_self_message m = m
