-- ===== src/Run/Tests/Roads.antt =====
-- A run in which a vehicle moves and is then configured: the manager sends the configuration on, and
-- the FES hands it to the vehicle's application.
use omnetpp_federate.Prelude.{ℕ, ◌≡◌, refl, some, List, [], ◌∷◌, false}
use omnetpp_federate.Prelude.Int.{pos}
use omnetpp_federate.Prelude.Dict.{Dict, lookup, insert}
use omnetpp_federate.Scheduler.Simulation.{Event, Payload, mobility, configuration}
use omnetpp_federate.Scheduler.{Scheduler}
use omnetpp_federate.Scheduler.Tests.{kernel, scripted, junk, early, Fes, Item}
use omnetpp_federate.Scheduler.Take.{take_next_event, loop, body, look, deliver}
use omnetpp_federate.Mobility.{set_next_position}
use omnetpp_federate.Scenario.{Manager, Node, Sending}
use omnetpp_federate.Scenario.Handlers.{handle_message}
use omnetpp_federate.Scenario.Removing.{nodes_of}
use omnetpp_federate.Scenario.Tests.{vehicle, wheels, there, move, creator}
use omnetpp_federate.Proxy.Tests.{two_radios}
use omnetpp_federate.Run.{managed, elsewhere, Run, stay, go}
use omnetpp_federate.Scheduler.Tests.{kernel-KernelLaws, kernel-LiveLaws}
use omnetpp_federate.Run.Granted.{IsGranted, Run-IsGranted}
use omnetpp_federate.Run.Scenes.{enact_all, events, Run-enact_all}

abbrev at_once : Payload ℕ → Event ℕ ℕ
at_once p = record {
  payload = p;
  timestamp = 1000;
  arrival_time = 1000;
  arrival_module = pos 1;
  is_stale = false;
}

abbrev road : Fes → Dict (Node ℕ ℕ) → List (Sending ℕ) → Manager ℕ ℕ (Scheduler ℕ Fes (List Item))
road f nodes sent = record {
  veh_module_type = "Car";
  veh_module_name = "veh";
  rsu_module_type = "Rsu";
  rsu_module_name = "rsu";
  nodes = nodes;
  vectors = ("veh", 1) ∷ [];
  proxy_out = 1;
  proxy_in = 1;
  sent = sent;
  removals = [];
  once = false;
  sched = record early { fes = f; federate_ambassador = [] };
}

abbrev ahead : Fes
ahead = at_once (mobility move) ∷ at_once (configuration two_radios) ∷ []

-- What the manager sends on arrives at the application of the vehicle.
abbrev forwarded : Event ℕ ℕ
forwarded = record (at_once (configuration two_radios)) { arrival_module = pos 5 }

-- The vehicle behind its move.
abbrev pub farther : Node ℕ ℕ
unfolding set_next_position
farther = record vehicle { mobility = some (set_next_position there wheels) }

abbrev pub told : List (Sending ℕ)
told = record { gate = pos 0; payload = configuration two_radios; bytes = pos 0 } ∷ []

pub driving :
    Run kernel scripted junk creator
      (road ahead ((pos 0, vehicle) ∷ []) [])
      (road [] ((pos 0, farther) ∷ []) told)
unfolding take_next_event loop body look deliver handle_message lookup insert set_next_position
driving =
    go
      (managed {s = road ahead ((pos 0, vehicle) ∷ []) []}
        {t = road (at_once (configuration two_radios) ∷ []) ((pos 0, farther) ∷ []) []} 1000 3
        (at_once (mobility move)) (record early { fes = at_once (configuration two_radios) ∷ [] })
        (at_once (configuration two_radios) ∷ []) refl refl refl)
      (go
        (managed {s = road (at_once (configuration two_radios) ∷ []) ((pos 0, farther) ∷ []) []}
          {t = road [] ((pos 0, farther) ∷ []) told} 1000 3 (at_once (configuration two_radios))
          (record early { fes = [] }) (forwarded ∷ []) refl refl refl)
        (go
          (elsewhere {s = road (forwarded ∷ []) ((pos 0, farther) ∷ []) told} 1000 3 forwarded
            (record early { fes = [] }) [] refl (λ e. absurd cc))
          stay))

Run-enact_all_example :
    nodes_of (road [] ((pos 0, farther) ∷ []) told)
    ≡ enact_all
        (creator "Car")
        (creator "Rsu")
        (events kernel scripted junk creator driving)
        (nodes_of (road ahead ((pos 0, vehicle) ∷ []) []))
Run-enact_all_example = Run-enact_all kernel scripted junk creator driving

Run-IsGranted_example :
    IsGranted kernel kernel-KernelLaws kernel-LiveLaws scripted junk creator driving
unfolding driving
Run-IsGranted_example =
    Run-IsGranted kernel kernel-KernelLaws kernel-LiveLaws scripted junk creator driving refl
      (refl, (refl, (refl, tt)), (refl, (refl, tt), (refl, (refl, tt), tt)))
