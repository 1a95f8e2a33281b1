-- ===== src/Run/Tests.antt =====
-- A run with one packet that a node received, and the theorems on runs there.
pub mod Roads
use omnetpp_federate.Prelude.{ℕ, ◌≡◌, refl, none, some, List, [], ◌∷◌, ◌++◌, true, false}
use omnetpp_federate.Prelude.Int.{pos}
use omnetpp_federate.Prelude.Dict.{lookup}
use omnetpp_federate.Scheduler.Simulation.{Event, app_packet}
use omnetpp_federate.Scheduler.{Scheduler}
use omnetpp_federate.Scheduler.Tests.{kernel, scripted, junk, early, Fes, Item, a_cmd, a_time}
use omnetpp_federate.Channel.Types.{cmd_msg_recv}
use omnetpp_federate.Scenario.{Manager, Creator}
use omnetpp_federate.Scenario.Handlers.{handle_message}
use omnetpp_federate.Scenario.Managed.{IsManaged}
use omnetpp_federate.Scheduler.Take.{take_next_event, loop, body, look, deliver}
use omnetpp_federate.Channel.Tests.{Stream, sockets, sockets-StreamLaws, codec}
use omnetpp_federate.Messages.{MosaicAppPacket}
use omnetpp_federate.Scenario.Reports.Told.{report_of}
use omnetpp_federate.Scheduler.Wire.Tests.{wire}
use omnetpp_federate.Run.Words.{Said, IsWord, spelled, Run-IsWord}
use omnetpp_federate.Run.{managed, Run, stay, go, HeardIn, Run-IsManaged, Run-Session}

-- No module can be made.
abbrev nothing : Creator ℕ ℕ
nothing type = none

abbrev heard : MosaicAppPacket
heard = record {
  node_id = pos 3;
  msg_id = pos 8;
  length = pos 0;
  channel_id = pos 3;
  dest_addr = 0;
}

abbrev packet : Event ℕ ℕ
packet = record {
  payload = app_packet heard;
  timestamp = 1000;
  arrival_time = 1000;
  arrival_module = pos 1;
  is_stale = false;
}

abbrev world : Fes → List Item → Manager ℕ ℕ (Scheduler ℕ Fes (List Item))
world f out = record {
  veh_module_type = "Car";
  veh_module_name = "veh";
  rsu_module_type = "Rsu";
  rsu_module_name = "rsu";
  nodes = [];
  vectors = [];
  proxy_out = 0;
  proxy_in = 0;
  sent = [];
  removals = [];
  once = false;
  sched = record early { fes = f; federate_ambassador = out };
}

abbrev report : List Item
report = a_cmd cmd_msg_recv ∷ a_time (pos 1000) ∷ []

-- The packet arrives at 1 ns, which is granted.
reporting : Run kernel scripted junk nothing (world (packet ∷ []) []) (world [] report)
unfolding take_next_event loop body look deliver handle_message
reporting =
    go
      (managed {s = world (packet ∷ []) []} {t = world [] report} 1000 3 packet
        (record early { fes = [] }) [] refl refl refl)
      stay

world-IsManaged : IsManaged (world (packet ∷ []) [])
unfolding lookup
world-IsManaged i n l = absurd cc

Run-IsManaged_example : IsManaged (world [] report)
Run-IsManaged_example = Run-IsManaged kernel scripted junk nothing reporting world-IsManaged

Run-Session_example :
    HeardIn kernel scripted junk nothing (world (packet ∷ []) []) (world [] report)
Run-Session_example = Run-Session kernel scripted junk nothing reporting

-- The same on sockets.
abbrev wired : Fes → Stream → Manager ℕ ℕ (Scheduler ℕ Fes Stream)
wired f out = record {
  veh_module_type = "Car";
  veh_module_name = "veh";
  rsu_module_type = "Rsu";
  rsu_module_name = "rsu";
  nodes = [];
  vectors = [];
  proxy_out = 0;
  proxy_in = 0;
  sent = [];
  removals = [];
  once = false;
  sched = record {
    ambassador_federate = ([], []);
    federate_ambassador = out;
    start_time = 0;
    stop_time = 9000;
    current_max_sim_time = 1000;
    time_advancing = true;
    fes = f;
    mgmt = some (pos 1);
    run_ended = false;
  };
}

abbrev told : Stream
told = report_of kernel wire packet heard ([], [])

sending : Run kernel wire junk nothing (wired (packet ∷ []) ([], [])) (wired [] told)
unfolding take_next_event loop body look deliver handle_message
sending =
    go
      (managed {s = wired (packet ∷ []) ([], [])} {t = wired [] told} 1000 3 packet
        (wired [] ([], [])).sched [] refl refl refl)
      stay

Run-IsWord_example :
    (ws : List Said) × IsWord true ws true × (told.1 ≡ [] ++ spelled sockets codec ws)
Run-IsWord_example =
    Run-IsWord kernel sockets codec sockets-StreamLaws (λ host port s. (pos 0, s)) (λ s. s) (λ s. s)
      0 junk nothing sending
