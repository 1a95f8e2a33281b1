-- ===== src/Delivery/Departures.antt =====
-- The ambassador's CONF_RADIO and SEND_MESSAGE for one node, from the manager
-- (src/mgmt/MosaicScenarioManager.cc) to the UDP packets of its application
-- (src/node/MosaicProxyApp.cc).
use omnetpp_federate.Prelude.{
  ℕ, ◌%◌, ◌^◌, ◌≡◌, ◌∙◌, refl, ap, subst, Bool, true, some, List, [], ◌∷◌, ◌++◌, arith, ◌==◌, ltb,
  ◌&&◌, if◌then◌else◌, Bool-cases, inl, inr,
}
use mathlib.Core.List.{append_assoc, append-nil}
use omnetpp_federate.Prelude.Int.{ℤ, pos, to_i32}
use omnetpp_federate.Prelude.Outcome.{◌>>=◌, >>=-done, Ends}
use omnetpp_federate.Prelude.Dict.{lookup}
use omnetpp_federate.Messages.{MosaicConfigurationCmd}
use omnetpp_federate.Channel.Types.{
  ConfigMessage, ConfigureRadioMessage, SendMessage, SendMessageMessage,
}
use omnetpp_federate.Channel.Read.Messages.{fill_config, fill_send}
use omnetpp_federate.Channel.Interface.{Channel}
use omnetpp_federate.Scheduler.Simulation.{Kernel, Event, configuration, app_packet}
use omnetpp_federate.Scheduler.Commands.{
  number_of_radios, configuration_payload, communication_payload,
}
use omnetpp_federate.Scheduler.{Scheduler}
use omnetpp_federate.Scenario.{Manager, Node, Creator, Sending}
use omnetpp_federate.Scenario.Handlers.{handle_message}
use omnetpp_federate.Proxy.Radios.{Doubles, App, Output}
use omnetpp_federate.Proxy.Branches.{IsReady, is_taken}
use omnetpp_federate.Proxy.Sending.{
  departure, departures, configure_and_send, configure_and_send-departures,
  handle_configuration-silent, fed_in-configuration,
}
use omnetpp_federate.Delivery.Commands.{
  channel_number, IsSingle, IsFor, asked_for, asked_for-IsFor, configuration_payload-asked_for,
}
use omnetpp_federate.Delivery.Flights.{
  hand_over, is_single_hop, has_address, packet_of, configured, sent-message, sent_to,
}

-- What leaves the manager for the node.
abbrev pub news :
    {D : Type 0}
    → ConfigureRadioMessage D
    → SendMessageMessage D
    → MosaicConfigurationCmd D
    → List (Sending D)
news config message cmd =
    record { gate = to_i32 config.external_id; payload = configuration cmd; bytes = pos 0 }
    ∷ (if is_single_hop message.address
        then record {
          gate = to_i32 config.external_id;
          payload = app_packet (packet_of message);
          bytes = to_i32 (message.length % 2 ^ 32);
        }
          ∷ []
        else [])

module _ {D : Type 0} (d : Doubles D) (draws : ℕ → D) (a : App D) (h : IsReady a)
    (config : ConfigureRadioMessage D) (message : SendMessageMessage D) where
  -- What leaves the node, by the two messages alone.
  abbrev leave : Bool → List (Output D)
  leave hops =
      if hops
      then (if ltb 0 (number_of_radios config.radio_number)
            && channel_number message.channel_id
              == channel_number config.primary_radio_configuration.primary_radio_channel
          then departure d (draws 1) a (packet_of message) h.i0 ∷ []
          else (if ltb 1 (number_of_radios config.radio_number)
                && channel_number message.channel_id
                  == channel_number config.secondary_radio_configuration.primary_radio_channel
              then departure d (draws 1) a (packet_of message) h.i1 ∷ []
              else []))
      else []

  abbrev pub leaving : List (Output D)
  leaving = leave (is_single_hop message.address)

  leaving-departures :
      (cmd : MosaicConfigurationCmd D)
      → IsFor config config.radio_number cmd
      → is_single_hop message.address ≡ true
      → departures d (draws 1) a h cmd (packet_of message) ≡ leaving
  leaving-departures cmd f hop = rw hop (ground (arith, f.radios, f.channel0, f.channel1))

  -- The application's part.
  hand_over-leaving :
      (cmd : MosaicConfigurationCmd D)
      → IsFor config config.radio_number cmd
      → is_taken d cmd ≡ true
      → Ends (hand_over d draws (news config message cmd) a) (λ b. b.sent ≡ a.sent ++ leaving)
  hand_over-leaving cmd f taken = elim (Bool-cases (is_single_hop message.address)) [
    | inl hop ↦
        rw (hand_over, fed_in-configuration d (draws 0) a h cmd, hop)
          (simp (>>=-done) (
            subst
              (λ (l : List (Output D)).
                Ends (configure_and_send d (draws 1) a h cmd (packet_of message))
                  (λ b. b.sent ≡ a.sent ++ l))
              (leaving-departures cmd f hop ∙ ap (λ (hops : Bool). leave hops) hop)
              (configure_and_send-departures d (draws 1) a h cmd (packet_of message) f.simple
                taken)))
    | inr far ↦
        rw (hand_over, fed_in-configuration d (draws 0) a h cmd, far)
          (simp (>>=-done, append-nil)
            (handle_configuration-silent d (draws 1) a h cmd f.simple taken))
  ]

  news-sent :
      {Q S : Type 0} (s : Manager D Q S) (cmd : MosaicConfigurationCmd D)
      → IsFor config config.radio_number cmd
      → message.node_id ≡ config.external_id
      → (if is_single_hop message.address
          then sent_to
              (sent_to s cmd.node_id (configuration cmd) (pos 0))
              (to_i32 message.node_id)
              (app_packet (packet_of message))
              (to_i32 (message.length % 2 ^ 32))
          else sent_to s cmd.node_id (configuration cmd) (pos 0)).sent
        ≡ s.sent ++ news config message cmd
  news-sent s cmd f same = elim (Bool-cases (is_single_hop message.address)) [
    | inl hop ↦ rw (hop, append_assoc, f.node, same) refl
    | inr far ↦ rw (far, f.node) refl
  ]

module _ {D Q T F C : Type 0} (k : Kernel D T F) (ch : Channel D C) (create : Creator D Q)
    (junk_config : ConfigMessage D) (junk_send : SendMessage) (config : ConfigureRadioMessage D)
    (message : SendMessageMessage D) (e1 e2 : Event D T)
    (asked : e1.payload ≡ configuration_payload k.zero_double (fill_config junk_config config))
    (told : e2.payload ≡ communication_payload (fill_send junk_send message))
    (same : message.node_id ≡ config.external_id) (single : IsSingle config config.radio_number)
    (addressed : has_address message.address ≡ true) (d : Doubles D) (draws : ℕ → D) (a : App D)
    (h : IsReady a)
    (taken : is_taken d (asked_for k.zero_double config config.radio_number) ≡ true) where
  -- The manager handles the event of a CONF_RADIO whose radios are on single channels, and then that of a
  -- SEND_MESSAGE with an address for the same node, which is known and has a proxy application. It always
  -- returns; it has sent the configuration, with every field as in the message, to the node's gate, and
  -- then the packet if the message is for one hop, and nothing else. A ready application that is given
  -- these always returns too, if INET's radios take the channels. It sends the packet once, by its first interface if the first radio was asked
  -- for on the message's channel, else by the second one if the second radio was, else not at all; and
  -- not at all if the message goes further than one hop. Neither the uninitialised structs nor the
  -- radios' former settings matter.
  pub handle_message-leaving :
      (s : Manager D Q (Scheduler T F C)) (node : Node D Q) (j : ℤ)
      → lookup (to_i32 config.external_id) s.nodes ≡ some node
      → node.proxy ≡ some j
      → Ends (handle_message k ch create e1 s >>= handle_message k ch create e2) (λ t.
        (t.sent
          ≡ s.sent ++ news config message (asked_for k.zero_double config config.radio_number))
        × Ends
            (hand_over d draws
              (news config message (asked_for k.zero_double config config.radio_number))
              a)
            (λ b. b.sent ≡ a.sent ++ leaving d draws a h config message))
  handle_message-leaving s node j known proxied =
      let cmd : MosaicConfigurationCmd D = asked_for k.zero_double config config.radio_number in
      let f : IsFor config config.radio_number cmd =
        asked_for-IsFor k.zero_double config config.radio_number in
      rw
        (configured k ch create e1 s node j cmd
          (asked ∙ configuration_payload-asked_for k.zero_double junk_config config single)
          (ap (λ i. lookup i s.nodes) f.node ∙ known) proxied)
        (rw
          (sent-message k ch create e2 (sent_to s cmd.node_id (configuration cmd) (pos 0)) node j
            junk_send message told addressed (ap (λ i. lookup (to_i32 i) s.nodes) same ∙ known)
            proxied)
          (
            news-sent d draws a h config message s cmd f same,
            hand_over-leaving d draws a h config message cmd f taken,
          ))
