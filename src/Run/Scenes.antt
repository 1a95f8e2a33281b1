-- ===== src/Run/Scenes.antt =====
-- The nodes of src/mgmt/MosaicScenarioManager.cc over a whole run, as a map from ids to nodes.
use omnetpp_federate.Prelude.{◌≡◌, ◌∙◌, refl, ap, subst, Option, List, [], ◌∷◌}
use omnetpp_federate.Prelude.Outcome.{Then}
use omnetpp_federate.Channel.Interface.{Channel}
use omnetpp_federate.Scheduler.Simulation.{Kernel, Payload}
use omnetpp_federate.Scheduler.{Scheduler, Junk}
use omnetpp_federate.Scenario.{Manager, Node, Creator}
use omnetpp_federate.Scenario.Removing.{nodes_of}
use omnetpp_federate.Scenario.Scene.{Scene, IsTyped, Becomes}
use omnetpp_federate.Scenario.Scene.Commands.{enact, handle_message-enact}
use omnetpp_federate.Run.{managed, elsewhere, Run, stay, go}

-- One event after another.
abbrev pub enact_all :
    {D Q : Type 0}
    → Option (Node D Q)
    → Option (Node D Q)
    → List (Payload D)
    → Scene D Q
    → Scene D Q
enact_all v r [] f = f
enact_all v r (p ∷ ps) f = enact_all v r ps (enact v r p f)

module _ {D Q T F C : Type 0} (k : Kernel D T F) (ch : Channel D C) (junk : Junk D)
    (create : Creator D Q) where
  abbrev World : Type 0
  World = Manager D Q (Scheduler T F C)

  -- What the manager handled in the run, in this order.
  abbrev pub events : {s t : World} → Run k ch junk create s t → List (Payload D)
  events stay = []
  events (go (managed now fuel e u f taken_e for_it handled) run) = e.payload ∷ events run
  events (go (elsewhere now fuel e u f taken_e not_for_it) run) = events run

  module _ (v r : Option (Node D Q)) where
    typed_run :
        {s t : World} (run : Run k ch junk create s t)
        → IsTyped create v r s
        → nodes_of t ≡ enact_all v r (events run) (nodes_of s)
    typed_run stay typed = refl
    typed_run (go (managed {s = s} {t = t} now fuel e u f taken_e for_it handled) run) typed =
        let (same, typed_t) =
          subst (λ o. Then o (Becomes create v r (enact v r e.payload (nodes_of s)))) handled
            (handle_message-enact k ch create v r e (record s { sched = u })
              (record { vehicle = typed.vehicle; rsu = typed.rsu })) in
        typed_run run (record { vehicle = typed_t.vehicle; rsu = typed_t.rsu })
        ∙ ap (enact_all v r (events run)) same
    typed_run (go (elsewhere now fuel e u f taken_e not_for_it) run) typed =
        typed_run run (record { vehicle = typed.vehicle; rsu = typed.rsu })

  -- The nodes after a whole run are those before it with the events that the manager handled in it done to
  -- them as to a map from ids to nodes: a node is added under its id, connected, placed and initialised,
  -- or moved, or dropped, and nothing else changes a node.
  pub Run-enact_all :
      {s t : World} (run : Run k ch junk create s t)
      → nodes_of t
        ≡ enact_all (create s.veh_module_type) (create s.rsu_module_type) (events run) (nodes_of s)
  Run-enact_all run = typed_run _ _ run (record { vehicle = refl; rsu = refl })
