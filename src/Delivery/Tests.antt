-- ===== src/Delivery/Tests.antt =====
-- One vehicle that is configured and sends a message, and the theorems of `Delivery` there.
use omnetpp_federate.Prelude.{ℕ, ◌≡◌, refl, some, List, [], ◌∷◌, ◌++◌, true, false, arith, All}
use omnetpp_federate.Prelude.Int.{pos, to_i32}
use omnetpp_federate.Prelude.Outcome.{Ends, ◌>>=◌, done, stop, end_simulation}
use omnetpp_federate.Prelude.Dict.{lookup}
use omnetpp_federate.Messages.{MosaicAppPacket}
use omnetpp_federate.Channel.Types.{
  ConfigureRadioMessage, SendMessageMessage, RadioConfiguration, single_radio, single_channel,
  proto_cch, proto_sch1, topo,
}
use omnetpp_federate.Channel.Read.Messages.{fill_config, fill_send}
use omnetpp_federate.Scheduler.Simulation.{Event}
use omnetpp_federate.Scheduler.Commands.{configuration_payload, communication_payload}
use omnetpp_federate.Scheduler.Tests.{junk}
use omnetpp_federate.Scenario.Handlers.{handle_message}
use omnetpp_federate.Scenario.Tests.{kernel, silent, vehicle, creator, manager, event}
use omnetpp_federate.Proxy.Tests.{doubles, ready, ready-IsReady}
use omnetpp_federate.Channel.Types.{cmd_shut_down}
use omnetpp_federate.Channel.Tests.{Stream, sockets, sockets-StreamLaws, codec, codec-CommandLaws}
use omnetpp_federate.Scheduler.{Scheduler, receive_interactions}
use omnetpp_federate.Scheduler.Simulation.{put_back}
use omnetpp_federate.Scheduler.Wire.Tests.{wire, frame}
use omnetpp_federate.Scenario.{Manager}
use omnetpp_federate.Proxy.{socket_in, udp_packet, handle_message_when_up}
use omnetpp_federate.Proxy.Radios.{to_federate}
use omnetpp_federate.Proxy.Branches.{IsReady}
use omnetpp_federate.Scenario.Reports.Sendings.{IsAddressed}
use omnetpp_federate.Scheduler.Simulation.{app_packet}
use omnetpp_federate.Delivery.Flights.{packet_of}
use omnetpp_federate.Delivery.Receptions.{reported_bytes, handle_message-reception}
use omnetpp_federate.Delivery.Shutdown.{last_event, handle_message-shut_down}
use omnetpp_federate.Delivery.Runs.{at_gate, Run-hand_over}
use omnetpp_federate.Run.Tests.Roads.{told, driving}
use omnetpp_federate.Scheduler.Tests.{kernel as scheduling, scripted}
use omnetpp_federate.Delivery.Commands.{IsSingle, asked_for}
use omnetpp_federate.Delivery.Flights.{hand_over}
use omnetpp_federate.Delivery.Departures.{news, leaving, handle_message-leaving}

abbrev radio : RadioConfiguration ℕ
radio = record {
  receiving_messages = true;
  ip_address = 7;
  subnet_address = 8;
  transmission_power = 20;
  radio_mode = single_channel;
  primary_radio_channel = proto_cch;
  secondary_radio_channel = proto_sch1;
}

-- Vehicle 0 gets one radio, on the control channel.
abbrev config : ConfigureRadioMessage ℕ
config = record {
  time = pos 1;
  message_id = 4;
  external_id = 0;
  radio_number = single_radio;
  primary_radio_configuration = radio;
  secondary_radio_configuration = radio;
}

-- And it is to tell its neighbours.
abbrev message : SendMessageMessage ℕ
message = record {
  time = pos 2;
  node_id = 0;
  channel_id = proto_cch;
  message_id = 5;
  length = 100;
  address = topo (record { ip_address = 9; ttl = 1 });
}

config-IsSingle : IsSingle config single_radio
config-IsSingle = record { first = λ h. refl; second = λ h. refl }

abbrev configuring : Event ℕ ℕ
configuring = event (configuration_payload 0 (fill_config junk.config config))

abbrev sending : Event ℕ ℕ
sending = event (communication_payload (fill_send junk.send message))

abbrev draws : ℕ → ℕ
draws n = 3

handle_message-leaving_example :
    Ends
      (handle_message kernel silent creator configuring manager
        >>= handle_message kernel silent creator sending)
      (λ t.
        (t.sent ≡ [] ++ news config message (asked_for 0 config single_radio))
        × Ends
            (hand_over doubles draws (news config message (asked_for 0 config single_radio)) ready)
            (λ b. b.sent ≡ [] ++ leaving doubles draws ready ready-IsReady config message))
unfolding lookup to_i32
handle_message-leaving_example =
    handle_message-leaving kernel silent creator junk.config junk.send config message configuring
      sending refl refl refl config-IsSingle refl doubles draws ready ready-IsReady refl manager
      vehicle (pos 0) refl refl

-- The manager with the vehicle, on the sockets: these bytes have come from the ambassador.
abbrev connected : List ℕ → Manager ℕ ℕ (Scheduler ℕ (List (Event ℕ ℕ)) Stream)
connected bytes = record {
  veh_module_type = "Car";
  veh_module_name = "veh";
  rsu_module_type = "Rsu";
  rsu_module_name = "rsu";
  nodes = (pos 0, vehicle) ∷ [];
  vectors = ("veh", 1) ∷ [];
  proxy_out = 1;
  proxy_in = 1;
  sent = [];
  removals = [];
  once = false;
  sched = record {
    ambassador_federate = (bytes, []);
    federate_ambassador = ([], []);
    start_time = 0;
    stop_time = 0;
    current_max_sim_time = 0;
    time_advancing = true;
    fes = [];
    mgmt = some (pos 1);
    run_ended = false;
  };
}

-- Another vehicle, with the id 0, hears the message.
handle_message-reception_example :
    Ends
      (handle_message_when_up doubles 3 ready socket_in (udp_packet (some (packet_of message))))
      (λ b.
        (p : MosaicAppPacket) × (b.sent ≡ [] ++ (to_federate p ∷ []))
        × Ends
            (handle_message kernel wire creator
              (record sending { payload = app_packet p })
              (connected []))
            (λ t.
              t.sched.federate_ambassador.1
              ≡ [] ++ reported_bytes kernel sockets codec sending 0 message))
unfolding to_i32
handle_message-reception_example =
    handle_message-reception kernel sockets codec sockets-StreamLaws (λ host port s. (pos 0, s))
      (λ s. s) (λ s. s) 0 creator sending doubles 3 ready (connected []) 0 message refl
      (omega arith) (omega arith)

abbrev last : Event ℕ ℕ
last = last_event (pos 1) 0

handle_message-shut_down_example :
    (u : Scheduler ℕ (List (Event ℕ ℕ)) Stream) × (receive_interactions kernel wire junk
        (connected (frame cmd_shut_down ++ (9 ∷ []))).sched
      ≡ done u)
    × (u.fes ≡ put_back kernel last [])
    × (u.ambassador_federate.0 ≡ 9 ∷ [])
    × (u.ambassador_federate.1 ≡ [])
    × (u.federate_ambassador ≡ ([], []))
    × (t : Manager ℕ ℕ (Scheduler ℕ (List (Event ℕ ℕ)) Stream)) × (handle_message kernel wire
          creator last
          (record (connected (frame cmd_shut_down ++ (9 ∷ []))) { sched = u })
        ≡ stop end_simulation t)
    × (t.nodes ≡ [])
    × (t.sched.ambassador_federate ≡ u.ambassador_federate)
    × (t.sched.federate_ambassador ≡ u.federate_ambassador)
handle_message-shut_down_example =
    handle_message-shut_down kernel sockets codec sockets-StreamLaws codec-CommandLaws
      (λ host port s. (pos 0, s)) (λ s. s) (λ s. s) 0 junk creator
      (connected (frame cmd_shut_down ++ (9 ∷ []))) (pos 1) (9 ∷ []) refl refl refl refl

-- The vehicle of the run moves, and then its application gets two radios.
Run-hand_over_example :
    All IsAddressed told × Ends (hand_over doubles draws (at_gate (pos 0) told) ready) IsReady
Run-hand_over_example =
    Run-hand_over scheduling scripted junk creator doubles draws (pos 0) ready driving refl
      (refl, tt) ready-IsReady
