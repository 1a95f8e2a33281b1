-- ===== src/Scheduler.antt =====
-- The event scheduler, src/mgmt/MosaicEventScheduler.h and .cc: its state and the commands that it
-- takes from the ambassador. `Take` is the loop that hands out events.
pub mod Simulation
pub mod Commands
pub mod Take
pub mod Arrivals
pub mod Grant
pub mod Progress
pub mod Opening
pub mod Protocol
pub mod Wire
pub mod Handshake
pub mod Tests
use Prim.Native.String.{String}
use omnetpp_federate.Prelude.{Bool, true, false, Option, none, some, [], if◌then◌else◌}
use omnetpp_federate.Prelude.Int.{ℤ, pos, to_u32}
use omnetpp_federate.Prelude.Outcome.{Outcome, done, stop, ◌>>=◌, null_pointer, runtime_error}
use omnetpp_federate.Log.{OmnetppLevel, loglevel_debug, loglevel_info}
use omnetpp_federate.Channel.Types.{
  Cmd, cmd_init, cmd_shut_down, cmd_update_node, cmd_advance_time, cmd_next_event, cmd_msg_recv,
  cmd_msg_send, cmd_conf_radio, cmd_end, cmd_success, InitReturn, UpdateNodeReturn, ConfigMessage,
  SendMessage,
}
use omnetpp_federate.Channel.Interface.{Channel}
use Simulation.{Kernel, Event, Payload, finish, app_packet, put_back}
use Commands.{channel_of_int, mobility_payload, communication_payload, configuration_payload}

pub record Scheduler (T F C : Type 0) : Type 0 where
  pub ambassador_federate : C
  pub federate_ambassador : C
  pub start_time : T
  pub stop_time : T
  pub current_max_sim_time : T
  pub time_advancing : Bool
  pub fes : F
  pub mgmt : Option ℤ  -- the id of the module in the static `mgmt`
  pub run_ended : Bool  -- the static `once` of `endRun`: the channels are deleted

-- What the uninitialised structs hold before a channel fills them.
pub record Junk (D : Type 0) : Type 0 where
  pub init : InitReturn
  pub update : UpdateNodeReturn D
  pub send : SendMessage
  pub config : ConfigMessage D

-- `m_host`, `m_port` and `m_cmdport`
pub record Config : Type 0 where
  pub host : String
  pub port : ℤ
  pub cmdport : ℤ

-- The options of the run: "mosaiceventscheduler-debug", and those that `startRun` copies.
pub record Options : Type 0 where
  pub debug : Bool
  pub config : Config

module _ {D T F C : Type 0} (k : Kernel D T F) (ch : Channel D C) where
  abbrev State : Type 0
  State = Scheduler T F C

  abbrev pub reply : Cmd → State → State
  reply cmd s = record s { ambassador_federate = ch.write_command cmd s.ambassador_federate }

  -- An event for the management module, whose pointer is used here.
  abbrev pub schedule : Payload D → T → State → Outcome State
  schedule p time s = elim s.mgmt [
    | none ↦ stop null_pointer s
    | some id ↦ done (record s {
      fes =
          put_back k
            (record {
              payload = p;
              timestamp = time;
              arrival_time = time;
              arrival_module = id;
              is_stale = false;
            })
            s.fes;
    })
  ]

  unfoldable pub process_shut_down : State → Outcome State
  process_shut_down s = schedule finish s.current_max_sim_time s

  -- `putBackEvent` and the acknowledgement. Without a command message its pointer is indeterminate.
  pub submit : Option (Payload D) → T → State → Outcome State
  submit none time s = stop null_pointer s
  submit (some p) time s = schedule p time s >>= λ t. done (reply cmd_success t)

  pub process_update_node : Junk D → State → Outcome State
  unfolding submit
  process_update_node junk s =
      let (_, message, c) =
        ch.read_update_node (record junk.update { properties = [] }) s.ambassador_federate in
      submit (mobility_payload k.zero_double message) (k.of_ns message.time)
        (record s { ambassador_federate = c })

  pub process_msg_send : Junk D → State → Outcome State
  unfolding submit
  process_msg_send junk s =
      let (_, message, c) = ch.read_send_message junk.send s.ambassador_federate in
      submit (some (communication_payload message)) (k.of_ns message.time)
        (record s { ambassador_federate = c })

  pub process_conf_radio : Junk D → State → Outcome State
  unfolding submit
  process_conf_radio junk s =
      let (_, message, c) = ch.read_configuration_message junk.config s.ambassador_federate in
      submit (some (configuration_payload k.zero_double message)) (k.of_ns message.time)
        (record s { ambassador_federate = c })

  pub process_advance_time : State → Outcome State
  process_advance_time s =
      let (time, c) = ch.read_time_message s.ambassador_federate in
      done (record s {
        ambassador_federate = c;
        current_max_sim_time = k.of_ns time;
        time_advancing = true;
      })

  -- The error object of the default case is made and dropped: there is no `throw`.
  pub unknown_command : State → Outcome State
  unknown_command s = done (record (reply cmd_end s) { time_advancing = true })

  unfoldable pub dispatch : Junk D → Cmd → State → Outcome State
  dispatch junk cmd_shut_down s = process_shut_down s
  dispatch junk cmd_update_node s = process_update_node junk s
  dispatch junk cmd_msg_send s = process_msg_send junk s
  dispatch junk cmd_conf_radio s = process_conf_radio junk s
  dispatch junk cmd_advance_time s = process_advance_time s
  dispatch junk _ s = unknown_command s

  pub receive_interactions : Junk D → State → Outcome State
  receive_interactions junk s =
      let (cmd, c) = ch.read_command s.ambassador_federate in
      dispatch junk cmd (record s { ambassador_federate = c })

  pub report_next_event : T → State → State
  report_next_event time s = record s {
    federate_ambassador =
        ch.write_time_message (k.in_ns time)
          (ch.write_command cmd_next_event s.federate_ambassador);
  }

  pub end_time_advance : T → State → State
  end_time_advance time s = record s {
    federate_ambassador =
        ch.write_time_message (k.in_ns time) (ch.write_command cmd_end s.federate_ambassador);
    time_advancing = false;
  }

  -- Only a `MosaicAppPacket` passes the cast.
  unfoldable pub report_received_v2x_message : Event D T → State → Outcome State
  report_received_v2x_message e s = elim e.payload [
    | app_packet p ↦ done (record s {
      federate_ambassador =
          ch.write_receive_message (k.in_ns e.arrival_time) p.node_id p.msg_id
            (channel_of_int p.channel_id) (pos 0)
            (ch.write_command cmd_msg_recv s.federate_ambassador);
    })
    | _ ↦ stop runtime_error s
  ]

  guess_next_event : State → Option (Event D T)
  guess_next_event s = k.peek_first s.fes

  pub set_mgmt_module : ℤ → State → State
  set_mgmt_module id s = record s { mgmt = some id }

  unfoldable pub end_run : State → State
  end_run s = if s.run_ended then s else record s {
    ambassador_federate = ch.destroy s.ambassador_federate;
    federate_ambassador = ch.destroy s.federate_ambassador;
    run_ended = true;
  }

  -- `fresh_out` and `fresh_in` are the newly made channels. No error is thrown here either.
  pub connect_to_ambassador : Junk D → Config → C → C → State → State
  connect_to_ambassador junk conf fresh_out fresh_in s =
      let (act_port, out1) = ch.prepare_connection conf.host (to_u32 conf.port) fresh_out in
      let out2 = ch.connect out1 in
      let (act_cmd_port, in1) = ch.prepare_connection conf.host (to_u32 conf.cmdport) fresh_in in
      let out3 = ch.write_port (to_u32 act_cmd_port) (ch.write_command cmd_init out2) in
      let (command, in2) = ch.read_command (ch.connect in1) in
      let (_, message, in3) = ch.read_init junk.init in2 in
      let started : State = record s {
        federate_ambassador = out3;
        ambassador_federate = ch.write_command cmd_success in3;
        start_time = k.of_ns message.start_time;
        stop_time = k.of_ns message.end_time;
        current_max_sim_time = k.of_ns message.start_time;
      } in
      let refused : State = record s {
        federate_ambassador = out3;
        ambassador_federate = ch.write_command cmd_end in2;
      } in
      elim command [ cmd_init ↦ started | _ ↦ refused ]

  -- The level of OMNeT++'s log, and the state.
  start_run : Options → Junk D → C → C → State → OmnetppLevel × State
  start_run options junk fresh_out fresh_in s = (
    if options.debug then loglevel_debug else loglevel_info,
    connect_to_ambassador junk options.config fresh_out fresh_in s,
  )
