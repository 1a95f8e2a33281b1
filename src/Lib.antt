-- ===== src/Lib.antt =====
-- A verification library for the OMNeT++ federate of Eclipse MOSAIC (src/): the program that couples
-- an OMNeT++/INET simulation to the MOSAIC ambassador over two sockets.
--
-- The parts of the program and their files:
--   src/util/ClientServerChannel.h, .cc, ClientServerChannelMessages.proto: `Channel`. The messages
--     are in `Channel/Types`, `readVarintPrefix` is `Channel/Varint`, the readers are `Channel/Read`
--     and `Channel/Read/Messages`, the writers `Channel/Write`, the enum conversions
--     `Channel/Convert`, the printed names `Channel/Print`. `Channel/Connect` is the set-up and the end
--     of a channel, over the calls in its record `Network`. `Channel/Interface` is what the scheduler
--     sees of it. The calls on a connected socket and those of protobuf are the records `Sockets` and
--     `Codec` of `Channel/System`, parameters of every definition; `StreamLaws` and `CommandLaws` are
--     what is documented of them.
--   src/mgmt/MosaicEventScheduler.h, .cc: `Scheduler`. `receiveInteractions` and the commands are in
--     `Scheduler`, the messages that it makes in `Scheduler/Commands`, `takeNextEvent` in
--     `Scheduler/Take`. The simulation time and the future event set (FES) are the record `Kernel` of
--     `Scheduler/Simulation`, with `KernelLaws` and `LiveLaws`. `Scheduler/Wire` and
--     `Scheduler/Handshake` are about its methods over the bytes of the channel, `Scheduler/Wire/Turns`
--     about a whole turn of the time advance, `Scheduler/Wire/Openings` about the first call behind
--     the hand-shake. `Scheduler/Protocol` is about the protocol of time advances as a state machine.
--   src/mgmt/MosaicScenarioManager.h, .cc: `Scenario` (the operations on a node) and
--     `Scenario/Handlers` (`handleMessage`, `finish`). `Scenario/Scene` is the abstract map from ids to
--     nodes. The making of a module by its type is a parameter.
--   src/node/MosaicProxyApp.h, .cc: `Proxy` (the start-up and the message handlers) and
--     `Proxy/Radios` (`connectRadios`, `handleConfiguration`).
--   src/node/MosaicMobility.h, .cc: `Mobility`.
--   src/msg/*.msg: `Messages`.
--   src/util/Log.h, .cc: `Log`.
--   The scheduler and the manager under OMNeT++'s event loop, which is not code of the repository, are
--     the step relation of `Run`. Any FES may stand behind a step, for the manager's handlers as for
--     other modules: `send`, `scheduleStart` and `callInitialize` put events into it, and `deleteModule`
--     takes some away. Over a run `Run/Scenes` is about the nodes, `Run/Granted` about the times of the
--     events, `Run/Words` about the bytes for the ambassador.
--   `Delivery` puts the parts together: a message on its way from the ambassador's command to what
--     leaves a node (`Delivery/Departures`), what a node hears on its way back
--     (`Delivery/Receptions`), all messages to the nodes in a run (`Delivery/Runs`), and the end of the
--     simulation (`Delivery/Shutdown`). A gate of the manager and the gate `fedIn` of the application
--     behind it are joined by `hand_over`.
-- The scheduler takes commands from the channel and puts events for the scenario manager into the
-- FES; the manager adds, moves and removes nodes and passes packets and radio configurations on to
-- the applications of the nodes; what these receive goes back by the manager and the scheduler.
-- `Prelude` has the shared helpers. Each component has a module `Tests` with a concrete environment.
--
-- A C++ `int` is an integer (`Prelude/Int`), an `unsigned` a number with its wrap-around written out,
-- a pointer an `Option`, a `double` a value of a parameter. A method with an effect takes the state of
-- its object and returns an `Outcome`: the new state, or a failure and the state at that point.
-- An uninitialised variable is a parameter named `junk`. The errors of OMNeT++ and INET that are kept are
-- those of an unknown type or gate, of an index or a size that is no valid `int`, and of a channel that a
-- radio refuses: which channels it takes is the field `takes` of the parameter `Doubles`.
--
-- Fuel: `varint_loop` gets four rounds, since the fifth byte ends the loop; `remove_all` gets the
-- number of nodes, since each round removes one; `loop` and `take_next_event` have no bound in the
-- code, since the ambassador may send any number of commands: theorems say how much is enough.
--
-- Not modelled: what is printed and displayed, save for the test before a log message, the printed
-- names and the text of a buffer; `ParameterLogger`, copied from ns-3; the NED and build files. Nodes
-- are initialised by INET and OMNeT++, which call back into `MosaicProxyApp::initialize` and
-- `MosaicMobility::initialize`; the model has these by themselves.
pub mod Prelude
pub mod Messages
pub mod Log
pub mod Channel
pub mod Scheduler
pub mod Proxy
pub mod Mobility
pub mod Scenario
pub mod Run
pub mod Delivery
