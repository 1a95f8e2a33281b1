-- ===== src/Run/Words.antt =====
-- What a run of src/mgmt/MosaicEventScheduler.cc and src/mgmt/MosaicScenarioManager.cc sends to the
-- ambassador, byte for byte: the channel is that of src/util/ClientServerChannel.cc.
use Prim.Native.String.{String}
use mathlib.Core.List.{append_assoc, append-nil}
use omnetpp_federate.Prelude.{ℕ, ◌≡◌, ◌∙◌, sym, ap, Bool, true, false, List, [], ◌∷◌, ◌++◌}
use omnetpp_federate.Prelude.Int.{ℤ, pos, to_u32}
use omnetpp_federate.Messages.{MosaicAppPacket}
use omnetpp_federate.Channel.Types.{Cmd, cmd_next_event, cmd_end, cmd_msg_recv, ReceiveMessage}
use omnetpp_federate.Channel.Convert.{channel_to_proto_channel}
use omnetpp_federate.Channel.System.{Sockets, Codec, StreamLaws}
use omnetpp_federate.Channel.Write.{
  time_frame, command_frame, framed, write_command, write_time_message, write_receive_message,
}
use omnetpp_federate.Channel.Interface.{Channel, client_server_channel}
use omnetpp_federate.Scheduler.Simulation.{Kernel, Event}
use omnetpp_federate.Scheduler.Commands.{channel_of_int}
use omnetpp_federate.Scheduler.{Scheduler, Junk}
use omnetpp_federate.Scheduler.Protocol.{Says, idle, ask, hear, Talk, quiet, next}
use omnetpp_federate.Scenario.{Manager, Creator}
use omnetpp_federate.Scenario.Reports.Told.{report_of}
use omnetpp_federate.Run.{Session, over, advance, report, Run, Run-Session}

-- A message for the ambassador.
pub data Said : Type 0 where
  wants : ℤ → Said  -- NEXT_EVENT at this time
  ends : ℤ → Said  -- END of the time advance at this time
  received : ReceiveMessage → Said

-- The words of the protocol, from an open or a closed grant to an open or a closed one. The grant is
-- opened by the ambassador.
pub data IsWord : Bool → List Said → Bool → Type 0 where
  nothing : {b : Bool} → IsWord b [] b
  granted : {b : Bool} {ws : List Said} → IsWord true ws b → IsWord false ws b
  ended : {b : Bool} {ws : List Said} (t : ℤ) → IsWord false ws b → IsWord true (ends t ∷ ws) b
  asked :
      {b : Bool} {ws : List Said} (t u : ℤ)
      → IsWord false ws b
      → IsWord true (wants t ∷ ends u ∷ ws) b
  reported :
      {b : Bool} {ws : List Said} (m : ReceiveMessage)
      → IsWord true ws b
      → IsWord true (received m ∷ ws) b

module _ {D S : Type 0} (os : Sockets S) (codec : Codec D) where
  -- A message is the frame of its command and the frame of its body.
  abbrev bytes_of : Said → List ℕ
  bytes_of (wants t) = command_frame os codec cmd_next_event ++ time_frame os codec t
  bytes_of (ends t) = command_frame os codec cmd_end ++ time_frame os codec t
  bytes_of (received m) =
      command_frame os codec cmd_msg_recv ++ framed os codec (codec.serialize_receive m)

  abbrev pub spelled : List Said → List ℕ
  spelled [] = []
  spelled (w ∷ ws) = bytes_of w ++ spelled ws

module _ {D T F S : Type 0} (k : Kernel D T F) (os : Sockets S) (codec : Codec D)
    (stream : StreamLaws os) (prepare : String → ℕ → S → ℤ × S) (accept close : S → S)
    (byte : ℕ) where
  open stream use {sent}

  abbrev channel : Channel D S
  channel = client_server_channel prepare accept close os codec byte

  -- The bytes between two states of the channel spell a word.
  abbrev Spells : Bool → S → Bool → S → Type 0
  Spells b c b' c' = (ws : List Said) × IsWord b ws b' × (sent c' ≡ sent c ++ spelled os codec ws)

  timed :
      (cmd : Cmd) (t : ℤ) (c : S)
      → sent (write_time_message os codec t (write_command os codec cmd c))
        ≡ sent c ++ (command_frame os codec cmd ++ time_frame os codec t)
  unfolding write_command write_time_message
  timed cmd t c = two_sends (command_frame os codec cmd) (time_frame os codec t) c
    where
      two_sends : (x y : List ℕ) (c : S) → sent (os.send y (os.send x c)) ≡ sent c ++ (x ++ y)
      two_sends x y c = simp (stream.send-sent, append_assoc)

  -- One message more in front.
  longer :
      (w : Said) (ws : List Said) (c c1 c2 : S)
      → sent c1 ≡ sent c ++ bytes_of os codec w
      → sent c2 ≡ sent c1 ++ spelled os codec ws
      → sent c2 ≡ sent c ++ spelled os codec (w ∷ ws)
  longer w ws c c1 c2 e f =
      f
      ∙ ap (λ (l : List ℕ). l ++ spelled os codec ws) e
      ∙ append_assoc (sent c) (bytes_of os codec w) (spelled os codec ws)

  Says-Spells :
      (cur : T) {b b1 b2 : Bool} {c c1 c2 : S}
      → Says k channel cur b c b1 c1
      → Spells b1 c1 b2 c2
      → Spells b c b2 c2
  Says-Spells cur {c = c} {c2 = c2} idle (ws, word, e) = (
    ends (k.in_ns cur) ∷ ws,
    ended (k.in_ns cur) word,
    longer (ends (k.in_ns cur)) ws c _ c2 (timed cmd_end (k.in_ns cur) c) e,
  )
  Says-Spells cur {c = c} {c2 = c2} (ask t) (ws, word, e) =
      let between : S =
        write_time_message os codec (k.in_ns t) (write_command os codec cmd_next_event c) in
      (
        wants (k.in_ns t) ∷ ends (k.in_ns cur) ∷ ws,
        asked (k.in_ns t) (k.in_ns cur) word,
        longer (wants (k.in_ns t)) (ends (k.in_ns cur) ∷ ws) c between c2
            (timed cmd_next_event (k.in_ns t) c)
            (longer (ends (k.in_ns cur)) ws between _ c2 (timed cmd_end (k.in_ns cur) between) e),
      )
  Says-Spells cur (hear {b = true}) (ws, word, e) = (ws, granted word, e)
  Says-Spells cur (hear {b = false}) (ws, word, e) = (ws, word, e)

  Talk-Spells :
      (cur : T) {b b1 b2 : Bool} {c c1 c2 : S}
      → Talk k channel cur b c b1 c1
      → Spells b1 c1 b2 c2
      → Spells b c b2 c2
  Talk-Spells cur quiet rest = rest
  Talk-Spells cur (next says talk) rest = Says-Spells cur says (Talk-Spells cur talk rest)

  -- What is reported of a packet.
  abbrev reception : Event D T → MosaicAppPacket → ReceiveMessage
  reception e p = record {
    time = k.in_ns e.arrival_time;
    node_id = to_u32 p.node_id;
    channel_id = channel_to_proto_channel (channel_of_int p.channel_id);
    message_id = to_u32 p.msg_id;
    rssi = pos 0;
  }

  report_of-spelled :
      (e : Event D T) (p : MosaicAppPacket) (c : S)
      → sent (report_of k channel e p c) ≡ sent c ++ bytes_of os codec (received (reception e p))
  unfolding write_command write_receive_message
  report_of-spelled e p c =
      stream.send-sent _ _
      ∙ ap (λ (l : List ℕ). l ++ framed os codec (codec.serialize_receive (reception e p)))
          (stream.send-sent _ _)
      ∙ append_assoc (sent c) _ _

  Session-Spells : {b b' : Bool} {c c' : S} → Session k channel b c b' c' → Spells b c b' c'
  Session-Spells {c = c} over = ([], nothing, sym (append-nil (sent c)))
  Session-Spells (advance cur talk session) = Talk-Spells cur talk (Session-Spells session)
  Session-Spells {c = c} {c' = c'} (report e p q session) =
      let (ws, word, h) = Session-Spells session in
      (
        received (reception e p) ∷ ws,
        reported (reception e p) word,
        longer (received (reception e p)) ws c (report_of k channel e p c) c'
            (report_of-spelled e p c) h,
      )

  -- All that a run sends to the ambassador are messages in frames, and these are a word of the
  -- protocol: under an open grant any number of receptions, and then the end of the time advance, alone
  -- or behind one wanted time; behind that nothing before the ambassador has opened the grant again.
  pub Run-IsWord :
      {Q : Type 0} (junk : Junk D) (create : Creator D Q) {s t : Manager D Q (Scheduler T F S)}
      → Run k channel junk create s t
      → (ws : List Said) × IsWord s.sched.time_advancing ws t.sched.time_advancing
        × (sent t.sched.federate_ambassador
            ≡ sent s.sched.federate_ambassador ++ spelled os codec ws)
  Run-IsWord junk create run = Session-Spells (Run-Session k channel junk create run)
