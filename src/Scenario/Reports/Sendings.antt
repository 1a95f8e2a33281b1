-- ===== src/Scenario/Reports/Sendings.antt =====
-- What the handlers of src/mgmt/MosaicScenarioManager.cc send to the nodes.
use omnetpp_federate.Prelude.{◌≡◌, refl, ◌⊎◌, inl, inr, Option-cases, Bool-cases, [], ◌∷◌, ◌++◌, ap}
use omnetpp_federate.Prelude.Int.{ℤ, pos, eq_ℤ}
use omnetpp_federate.Prelude.Outcome.{Then}
use omnetpp_federate.Prelude.Dict.{lookup}
use omnetpp_federate.Messages.{MosaicCommunicationCmd, MosaicConfigurationCmd, MosaicAppPacket}
use omnetpp_federate.Scheduler.Simulation.{Payload, configuration, app_packet}
use omnetpp_federate.Scenario.{Manager, Node, Sending}
use omnetpp_federate.Scenario.Handlers.{send_to, send_v2x_message, configure_radio}
use omnetpp_federate.Scenario.Reports.{Keeps}

-- A message for a node's application, at the gate of this node.
pub data IsAddressed {D : Type 0} (x : Sending D) : Type 0 where
  to_configure :
      (cmd : MosaicConfigurationCmd D)
      → x.payload ≡ configuration cmd
      → cmd.node_id ≡ x.gate
      → IsAddressed x
  to_send : (p : MosaicAppPacket) → x.payload ≡ app_packet p → p.node_id ≡ x.gate → IsAddressed x

module _ {D Q S : Type 0} where
  -- The scheduler is as it was, and at most one message has left the gates.
  pub record Sends (s t : Manager D Q S) : Type 0 where
    pub scheduler : t.sched ≡ s.sched
    pub messages :
        (t.sent ≡ s.sent) ⊎ ((x : Sending D) × IsAddressed x × (t.sent ≡ s.sent ++ (x ∷ [])))

  pub Keeps-Sends : (s t : Manager D Q S) → Keeps s t → Sends s t
  Keeps-Sends s t e = record { scheduler = ap (λ p. p.0) e; messages = inl (ap (λ p. p.1) e) }

  send_to-Sends :
      (id : ℤ) (p : Payload D) (bytes : ℤ) (n : Node D Q) (s : Manager D Q S)
      → IsAddressed (record { gate = id; payload = p; bytes = bytes })
      → Then (send_to id p bytes n s) (Sends s)
  unfolding send_to
  send_to-Sends id p bytes n s h = elim (Option-cases n.proxy) [
    | inl e ↦ rw (Then, send_to, e) tt
    | inr (j, e) ↦ rw (send_to, e) (record { scheduler = refl; messages = inr (_, h, refl) })
  ]

  unchanged : (s : Manager D Q S) → Sends s s
  unchanged s = record { scheduler = refl; messages = inl refl }

  pub send_v2x_message-Sends :
      (cmd : MosaicCommunicationCmd) (s : Manager D Q S) → Then (send_v2x_message cmd s) (Sends s)
  unfolding send_v2x_message
  send_v2x_message-Sends cmd s = elim (Option-cases (lookup cmd.node_id s.nodes)) [
    | inl e ↦ rw (send_v2x_message, e) (unchanged s)
    | inr (n, e) ↦ elim (Bool-cases (eq_ℤ cmd.ttl (pos 1))) [
      | inl q ↦
          rw (send_v2x_message, e, q)
            (send_to-Sends cmd.node_id _ cmd.length n s (to_send _ refl refl))
      | inr q ↦ rw (send_v2x_message, e, q) (unchanged s)
    ]
  ]

  pub configure_radio-Sends :
      (cmd : MosaicConfigurationCmd D) (s : Manager D Q S) → Then (configure_radio cmd s) (Sends s)
  unfolding configure_radio
  configure_radio-Sends cmd s = elim (Option-cases (lookup cmd.node_id s.nodes)) [
    | inl e ↦ rw (configure_radio, e) (unchanged s)
    | inr (n, e) ↦
        rw (configure_radio, e)
          (send_to-Sends cmd.node_id _ (pos 0) n s (to_configure cmd refl refl))
  ]
