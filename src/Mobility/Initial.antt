-- ===== src/Mobility/Initial.antt =====
-- Where a node is when src/node/MosaicMobility.cc has been initialised: the manager places it before.
use omnetpp_federate.Prelude.{
  ◌≡◌, ◌⊎◌, inl, inr, ◌∙◌, refl, ap, Bool, false, Bool-cases, List, [], ◌∷◌,
}
use omnetpp_federate.Prelude.Int.{ℤ, pos, eq_ℤ}
use omnetpp_federate.Messages.{Coord}
use omnetpp_federate.Mobility.{
  Mobility, set_external_id, set_next_position, set_initial_position, initialize,
}

module _ {D Q : Type 0} (is_nil : Coord D → Bool) (initial : Mobility D Q → Mobility D Q)
    (base : ℤ → Mobility D Q → Mobility D Q) where
  -- The base class leaves the position in a stage, or it calls `setInitialPosition` there, which is
  -- the method of the class or, below it, `initial`.
  pub record BaseLaws : Type 0 where
    pub keeps_or_sets :
        (stage : ℤ) (m : Mobility D Q)
        → ((base stage m).last_position ≡ m.last_position)
          ⊎ ((base stage m).last_position ≡ (set_initial_position is_nil initial m).last_position)

  -- All stages, one after another.
  abbrev pub through : Bool → List ℤ → Mobility D Q → Mobility D Q
  through par_debug [] m = m
  through par_debug (stage ∷ stages) m =
      through par_debug stages (initialize base par_debug stage m)

  module _ (laws : BaseLaws) (par_debug : Bool) where
    initialize-position :
        (stage : ℤ) (m : Mobility D Q)
        → is_nil m.last_position ≡ false
        → (initialize base par_debug stage m).last_position ≡ m.last_position
    unfolding initialize set_initial_position
    initialize-position stage m placed = at_stage ∙ elim (laws.keeps_or_sets stage m) [
      | inl kept ↦ kept
      | inr set ↦ set ∙ rw (set_initial_position, placed) refl
    ]
      where
        at_stage : (initialize base par_debug stage m).last_position ≡ (base stage m).last_position
        at_stage = elim (Bool-cases (eq_ℤ stage (pos 1))) [
          | inl q ↦ rw (initialize, q) refl
          | inr q ↦ rw (initialize, q) refl
        ]

    through-position :
        (stages : List ℤ) (m : Mobility D Q)
        → is_nil m.last_position ≡ false
        → (through par_debug stages m).last_position ≡ m.last_position
    through-position [] m placed = refl
    through-position (stage ∷ stages) m placed =
        let kept = initialize-position stage m placed in
        through-position stages (initialize base par_debug stage m) (ap is_nil kept ∙ placed) ∙ kept

    -- If the base class leaves the position to `setInitialPosition`: a node that is tagged and
    -- placed before it is initialised is at this place behind all stages of the initialisation,
    -- whichever they are, unless the place is NIL.
    pub through-set_next_position :
        (stages : List ℤ) (id : ℤ) (x y z : D) (m : Mobility D Q)
        → is_nil (record { x = x; y = y; z = z }) ≡ false
        → (through par_debug stages (
            set_next_position
              (record { x = x; y = y; z = z })
              (set_external_id id m))).last_position
          ≡ record { x = x; y = y; z = z }
    unfolding set_next_position
    through-set_next_position stages id x y z m placed = through-position stages _ placed
