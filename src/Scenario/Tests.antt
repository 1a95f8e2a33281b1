-- ===== src/Scenario/Tests.antt =====
-- The scenario manager with one vehicle, and its theorems there. The simulation is the least one
-- that has the types: there is no time and no event set.
pub mod Lists
use omnetpp_federate.Prelude.{ℕ, ◌≡◌, ◌⊎◌, refl, none, some, List, [], ◌∷◌, true, false, arith}
use omnetpp_federate.Prelude.Int.{ℤ, pos}
use omnetpp_federate.Prelude.Outcome.{stop, Then, Ends, end_simulation, double_delete}
use omnetpp_federate.Prelude.Dict.{lookup}
use omnetpp_federate.Messages.{Coord, MosaicMobilityCmd, move_nodes, add_nodes}
use omnetpp_federate.Mobility.{Mobility}
use omnetpp_federate.Channel.Types.{cmd_undef}
use omnetpp_federate.Channel.Interface.{Channel}
use omnetpp_federate.Scheduler.Simulation.{Kernel, Event, Payload, mobility, finish as finish_cmd}
use omnetpp_federate.Scheduler.{Scheduler, end_run}
use omnetpp_federate.Scenario.{Manager, Node, Creator}
use omnetpp_federate.Scenario.Handlers.{handle_message}
use omnetpp_federate.Scenario.Ending.{handle_message-finish}
use omnetpp_federate.Scenario.Positions.{position, moved, handle_message-moved}
use omnetpp_federate.Scenario.Managed.{IsManaged}
use omnetpp_federate.Scenario.Invariant.{handle_message-IsManaged}

abbrev pub kernel : Kernel ℕ ℕ (List (Event ℕ ℕ))
kernel = record {
  zero_time = 0;
  of_ns = λ z. 0;
  in_ns = λ t. pos t;
  sub = λ a b. a;
  remainder_ns = λ t. 0;
  gt = λ a b. false;
  is_empty = λ f. true;
  peek_first = λ f. none;
  remove_first = λ f. (none, f);
  insert = λ e f. e ∷ f;
  sort = λ f. f;
  zero_double = 0;
}

abbrev pub silent : Channel ℕ ℕ
silent = record {
  prepare_connection = λ host port s. (pos 0, s);
  connect = λ s. s;
  destroy = λ s. s;
  read_command = λ s. (cmd_undef, s);
  read_init = λ m s. (pos 0, m, s);
  read_update_node = λ m s. (pos 0, m, s);
  read_configuration_message = λ m s. (pos 0, m, s);
  read_send_message = λ m s. (pos 0, m, s);
  read_time_message = λ s. (pos 0, s);
  write_command = λ c s. s;
  write_port = λ p s. s;
  write_time_message = λ t s. s;
  write_receive_message = λ t n m c r s. s;
}

abbrev pub here : Coord ℕ
here = record { x = 3; y = 4; z = 0 }

abbrev pub there : Coord ℕ
there = record { x = 30; y = 40; z = 0 }

abbrev pub wheels : Mobility ℕ ℕ
wheels = record {
  external_id = pos 0;
  last_position = here;
  last_orientation = 0;
  changes = 1;
  debug = false;
}

abbrev pub vehicle : Node ℕ ℕ
vehicle = record {
  proxy = some (pos 0);
  mobility = some wheels;
  others = [];
  has_wlan0 = true;
  has_wlan1 = true;
  initialized = true;
}

abbrev pub creator : Creator ℕ ℕ
creator type = some (record vehicle { proxy = some (pos 0); initialized = false })

abbrev pub manager : Manager ℕ ℕ (Scheduler ℕ (List (Event ℕ ℕ)) ℕ)
manager = record {
  veh_module_type = "Car";
  veh_module_name = "veh";
  rsu_module_type = "Rsu";
  rsu_module_name = "rsu";
  nodes = (pos 0, vehicle) ∷ [];
  vectors = ("veh", 1) ∷ [];
  proxy_out = 1;
  proxy_in = 1;
  sent = [];
  removals = [];
  once = false;
  sched = record {
    ambassador_federate = 0;
    federate_ambassador = 0;
    start_time = 0;
    stop_time = 0;
    current_max_sim_time = 0;
    time_advancing = true;
    fes = [];
    mgmt = some (pos 1);
    run_ended = false;
  };
}

abbrev pub event : Payload ℕ → Event ℕ ℕ
event p = record {
  payload = p;
  timestamp = 0;
  arrival_time = 0;
  arrival_module = pos 1;
  is_stale = false;
}

-- Vehicle 0 moves; there is no node 7.
abbrev pub move : MosaicMobilityCmd ℕ
move = record { cmd_type = move_nodes; node_id = pos 0 ∷ pos 7 ∷ []; position = there ∷ here ∷ [] }

handle_message-moved_example :
    Ends
      (handle_message kernel silent creator (event (mobility move)) manager)
      (λ t. (i : ℤ) → position t i ≡ moved move.node_id move.position (position manager) i)
handle_message-moved_example =
    handle_message-moved kernel silent creator (event (mobility move)) move manager refl refl
      (omega arith)

moved_position : moved move.node_id move.position (position manager) (pos 0) ≡ some there
unfolding lookup
moved_position = refl

handle_message-finish_example :
    ((false ≡ false)
      × (t : Manager ℕ ℕ (Scheduler ℕ (List (Event ℕ ℕ)) ℕ)) × (handle_message kernel silent creator
            (event finish_cmd)
            manager
          ≡ stop end_simulation t)
      × (t.nodes ≡ [])
      × (t.once ≡ true)
      × (t.sched ≡ end_run kernel silent manager.sched))
    ⊎ ((false ≡ true)
        × (handle_message kernel silent creator (event finish_cmd) manager
            ≡ stop double_delete manager))
handle_message-finish_example =
    handle_message-finish kernel silent creator (event finish_cmd) manager refl

manager-IsManaged : IsManaged manager
unfolding lookup
manager-IsManaged i n e = ground (arith, e)

handle_message-IsManaged_example :
    Then
      (handle_message kernel silent creator
        (event (mobility (record move { cmd_type = add_nodes; node_id = pos 1 ∷ [] })))
        manager)
      IsManaged
handle_message-IsManaged_example =
    handle_message-IsManaged kernel silent creator
      (event (mobility (record move { cmd_type = add_nodes; node_id = pos 1 ∷ [] }))) manager
      manager-IsManaged
