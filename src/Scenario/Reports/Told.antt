-- ===== src/Scenario/Reports/Told.antt =====
-- What `handleMessage` of src/mgmt/MosaicScenarioManager.cc does to the scheduler: nothing, or the
-- report of one packet.
use omnetpp_federate.Prelude.{◌≡◌, refl, ◌⊎◌, inl, inr, subst, sym, ap, [], ◌∷◌, ◌++◌}
use omnetpp_federate.Prelude.Int.{pos}
use omnetpp_federate.Prelude.Outcome.{
  Outcome, done, stop, Then, Then-mono, ◌>>=◌, >>=-stop, double_delete, runtime_error,
}
use omnetpp_federate.Messages.{MosaicAppPacket}
use omnetpp_federate.Channel.Types.{cmd_msg_recv}
use omnetpp_federate.Channel.Interface.{Channel}
use omnetpp_federate.Scheduler.Simulation.{
  Kernel, Event, Payload, mobility, communication, configuration, finish as finish_cmd, app_packet,
  other,
}
use omnetpp_federate.Scheduler.Commands.{channel_of_int}
use omnetpp_federate.Scheduler.{Scheduler, report_received_v2x_message}
use omnetpp_federate.Scenario.{Manager, Creator, Sending}
use omnetpp_federate.Scenario.Handlers.{
  mobility_command, send_v2x_message, configure_radio, finish, receive_v2x_message, handle_message,
}
use omnetpp_federate.Scenario.Reports.{Keeps, mobility_command-Keeps}
use omnetpp_federate.Scenario.Reports.Sendings.{
  IsAddressed, Sends, Keeps-Sends, send_v2x_message-Sends, configure_radio-Sends,
}

module _ {D T F C : Type 0} (k : Kernel D T F) (ch : Channel D C) where
  -- What `reportReceivedV2xMessage` writes behind `c` for a packet.
  abbrev pub report_of : Event D T → MosaicAppPacket → C → C
  report_of e p c =
      ch.write_receive_message (k.in_ns e.arrival_time) p.node_id p.msg_id
        (channel_of_int p.channel_id) (pos 0) (ch.write_command cmd_msg_recv c)

  abbrev pub reported : Event D T → MosaicAppPacket → Scheduler T F C → Scheduler T F C
  reported e p s = record s { federate_ambassador = report_of e p s.federate_ambassador }

  abbrev pub Told : Event D T → Scheduler T F C → Scheduler T F C → Type 0
  Told e s t = (t ≡ s) ⊎ ((p : MosaicAppPacket) × (e.payload ≡ app_packet p) × (t ≡ reported e p s))

module _ {D Q T F C : Type 0} (k : Kernel D T F) (ch : Channel D C) (create : Creator D Q)
    (e : Event D T) (s : Manager D Q (Scheduler T F C)) where
  abbrev handled : Outcome (Manager D Q (Scheduler T F C))
  handled = handle_message k ch create e s

  -- At most one message goes to the nodes, or the packet of a node is passed on.
  abbrev Does : Manager D Q (Scheduler T F C) → Type 0
  Does t =
      Sends s t
      ⊎ ((p : MosaicAppPacket) × (e.payload ≡ app_packet p)
          × (t ≡ record s { sched = reported k ch e p s.sched }))

  -- The handler has made a call that leaves the scheduler alone.
  sent_by :
      (o : Outcome (Manager D Q (Scheduler T F C)))
      → handled ≡ o
      → Then o (Sends s)
      → Then handled Does
  sent_by o e h = subst (λ o. Then o Does) (sym e) (Then-mono (Sends s) Does o h (λ t q. inl q))

  kept :
      (o : Outcome (Manager D Q (Scheduler T F C)))
      → handled ≡ o
      → Then o (Keeps s)
      → Then handled Does
  kept o e h = sent_by o e (Then-mono (Keeps s) (Sends s) o h (Keeps-Sends s))

  pub passed :
      (p : MosaicAppPacket)
      → e.payload ≡ app_packet p
      → handled ≡ done (record s { sched = reported k ch e p s.sched })
  unfolding handle_message receive_v2x_message report_received_v2x_message
  passed p q =
      rw (handle_message, q) (rw (receive_v2x_message, report_received_v2x_message, q) refl)

  refused : e.payload ≡ other → handled ≡ stop runtime_error s
  unfolding handle_message receive_v2x_message report_received_v2x_message
  refused q = rw (handle_message, q) (rw (receive_v2x_message, report_received_v2x_message, q) refl)

  handle_message-Does : Then handled Does
  unfolding handle_message receive_v2x_message report_received_v2x_message
  handle_message-Does = by_payload e.payload refl
    where
      by_payload : (p : Payload D) → e.payload ≡ p → Then handled Does
      by_payload (mobility cmd) q =
          kept (mobility_command create cmd.cmd_type cmd s) (rw (handle_message, q) refl)
            (mobility_command-Keeps create cmd.cmd_type cmd s)
      by_payload (communication cmd) q =
          sent_by (send_v2x_message cmd s) (rw (handle_message, q) refl)
            (send_v2x_message-Sends cmd s)
      by_payload (configuration cmd) q =
          sent_by (configure_radio cmd s) (rw (handle_message, q) refl)
            (configure_radio-Sends cmd s)
      by_payload finish_cmd q =
          kept (finish k ch s >>= λ t. stop double_delete t) (rw (handle_message, q) refl)
            (>>=-stop (Keeps s) (finish k ch s) double_delete)
      by_payload (app_packet p) q = subst (λ o. Then o Does) (sym (passed p q)) (inr (p, q, refl))
      by_payload other q = subst (λ o. Then o Does) (sym (refused q)) tt

  -- Only a packet from a node is reported, and nothing else reaches the scheduler.
  pub handle_message-Told : Then handled (λ t. Told k ch e s.sched t.sched)
  handle_message-Told =
      Then-mono Does (λ t. Told k ch e s.sched t.sched) handled handle_message-Does told
    where
      told : (t : Manager D Q (Scheduler T F C)) → Does t → Told k ch e s.sched t.sched
      told t (inl v) = inl v.scheduler
      told t (inr (p, q, is)) = inr (p, q, ap (λ u. u.sched) is)

  -- At most one message leaves the gates, and it is for the node of its gate.
  pub handle_message-IsAddressed :
      Then handled
        (λ t. (t.sent ≡ s.sent) ⊎ ((x : Sending D) × IsAddressed x × (t.sent ≡ s.sent ++ (x ∷ []))))
  handle_message-IsAddressed = Then-mono Does Left handled handle_message-Does left
    where
      Left : Manager D Q (Scheduler T F C) → Type 0
      Left t = (t.sent ≡ s.sent) ⊎ ((x : Sending D) × IsAddressed x × (t.sent ≡ s.sent ++ (x ∷ [])))

      left : (t : Manager D Q (Scheduler T F C)) → Does t → Left t
      left t (inl v) = v.messages
      left t (inr (p, q, is)) = inl (ap (λ u. u.sent) is)
