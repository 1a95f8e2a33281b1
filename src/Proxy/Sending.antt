-- ===== src/Proxy/Sending.antt =====
-- Which packets of the federate leave a node, and by which interface (src/node/MosaicProxyApp.cc).
use omnetpp_federate.Prelude.{
  ℕ, zero, suc, ◌<◌, ◌≤◌, sym, ◌≡◌, ◌≢◌, ◌⊎◌, refl, some, List, [], ◌∷◌, ◌++◌, arith, if◌then◌else◌,
  ltb, true, ◌&&◌, ◌||◌, inl, inr, Bool-cases,
}
use mathlib.Core.List.{append-nil}
use native.Mathlib.Decide.{dec_lt}
use omnetpp_federate.Prelude.Int.{ℤ, eq_ℤ, eq_ℤ_iff}
use omnetpp_federate.Prelude.Outcome.{Outcome, done, Ends, ◌>>=◌}
use omnetpp_federate.Messages.{MosaicAppPacket, MosaicConfigurationCmd}
use omnetpp_federate.Proxy.Radios.{
  Doubles, App, NetworkInterface, Output, to_socket, handle_configuration,
}
use omnetpp_federate.Proxy.{fed_in, app_packet, configuration, handle_message_when_up}
use omnetpp_federate.Proxy.Branches.{IsReady, is_taken, handle_zero, handle_one, handle_two}

-- A radio that runs serves the channel; the first radio comes first.
pub data Serves {D : Type 0} (a : App D) (channel : ℤ) (i : NetworkInterface D) : Type 0 where
  first : 0 < a.num_radios → channel ≡ a.radio0_channel → a.ie0 ≡ some i → Serves a channel i
  second :
      1 < a.num_radios
      → channel ≢ a.radio0_channel
      → channel ≡ a.radio1_channel
      → a.ie1 ≡ some i
      → Serves a channel i

module _ {D : Type 0} (a : App D) (c : ℤ) where
  Serves-test :
      (i : NetworkInterface D)
      → Serves a c i
      → (ltb 0 a.num_radios
          && (eq_ℤ c a.radio0_channel || (ltb 1 a.num_radios && eq_ℤ c a.radio1_channel)))
        ≡ true
  Serves-test i (first n e w) = ground (arith, eq_ℤ_iff c a.radio0_channel)
  Serves-test i (second n ne e w) = ground (arith, eq_ℤ_iff c a.radio1_channel)

  served :
      IsReady a
      → ((i : NetworkInterface D) × Serves a c i) ⊎ ((i : NetworkInterface D) → ¬ Serves a c i)
  served h = elim (dec_lt 0 a.num_radios) [
    | no none_on ↦ inr (λ i s. ground (arith, Serves-test i s))
    | yes on ↦ elim (Bool-cases (eq_ℤ c a.radio0_channel)) [
      | inl e ↦ inl (h.i0, first on ((eq_ℤ_iff c a.radio0_channel).0 e) h.wired0)
      | inr ne ↦ elim (dec_lt 1 a.num_radios) [
        | no one_on ↦ inr (λ i s. ground (arith, Serves-test i s))
        | yes two ↦ elim (Bool-cases (eq_ℤ c a.radio1_channel)) [
          | inl e ↦ inl (
            h.i1,
            second two (ground (arith, eq_ℤ_iff c a.radio0_channel))
                ((eq_ℤ_iff c a.radio1_channel).0 e) h.wired1,
          )
          | inr other ↦ inr (λ i s. ground (arith, Serves-test i s))
        ]
      ]
    ]
  ]

module _ {D : Type 0} (d : Doubles D) (draw : D) where
  -- The UDP packet that carries `p`, to be sent from the application `a` by the interface `i`.
  abbrev pub departure : App D → MosaicAppPacket → NetworkInterface D → Output D
  departure a p i =
      to_socket
        (record {
          payload = p;
          src_address = a.local_address;
          dest_address = p.dest_addr;
          dest_port = a.dest_port;
          interface_id = i.interface_id;
        })
        (d.times draw a.max_proc_delay)

  sends :
      (a : App D) (p : MosaicAppPacket) (i : NetworkInterface D)
      → Serves a p.channel_id i
      → handle_message_when_up d draw a fed_in (app_packet p)
        ≡ done (record a { sent = a.sent ++ (departure a p i ∷ []) })
  unfolding handle_message_when_up
  sends a p i (first n e w) = ground (arith, eq_ℤ_iff p.channel_id a.radio0_channel)
  sends a p i (second n ne e w) =
      ground (arith, eq_ℤ_iff p.channel_id a.radio0_channel, eq_ℤ_iff p.channel_id a.radio1_channel)

  drops :
      (a : App D) (p : MosaicAppPacket)
      → IsReady a
      → ((i : NetworkInterface D) → ¬ Serves a p.channel_id i)
      → handle_message_when_up d draw a fed_in (app_packet p) ≡ done a
  unfolding handle_message_when_up
  drops a p h never = ground (
    arith,
    eq_ℤ_iff p.channel_id a.radio0_channel,
    eq_ℤ_iff p.channel_id a.radio1_channel,
    λ (n : 0 < a.num_radios) (e : p.channel_id ≡ a.radio0_channel). never h.i0 (first n e h.wired0),
    λ (n : 1 < a.num_radios) (ne : p.channel_id ≢ a.radio0_channel)
          (e : p.channel_id ≡ a.radio1_channel).
        never h.i1 (second n ne e h.wired1),
  )

  -- A packet from the federate leaves a ready application once, by an interface whose radio serves its channel, or no
  -- radio serves it and the application stays as it was.
  pub app_packet-Serves :
      (a : App D) (p : MosaicAppPacket)
      → IsReady a
      → ((i : NetworkInterface D) × Serves a p.channel_id i
          × (handle_message_when_up d draw a fed_in (app_packet p)
              ≡ done (record a { sent = a.sent ++ (departure a p i ∷ []) })))
        ⊎ (((i : NetworkInterface D) → ¬ Serves a p.channel_id i)
            × (handle_message_when_up d draw a fed_in (app_packet p) ≡ done a))
  app_packet-Serves a p h = elim (served a p.channel_id h) [
    | inl (i, v) ↦ inl (i, v, sends a p i v)
    | inr never ↦ inr (never, drops a p h never)
  ]

-- A command that the application supports: at most two radios, each on a single channel.
pub record IsSimple {D : Type 0} (cmd : MosaicConfigurationCmd D) : Type 0 where
  pub few : cmd.num_radios ≤ 2
  pub single0 : 0 < cmd.num_radios → cmd.numchannels0 ≡ 1
  pub single1 : 1 < cmd.num_radios → cmd.numchannels1 ≡ 1

data Few (n : ℕ) : Type 0 where
  zero_radios : n ≡ 0 → Few n
  one_radio : n ≡ 1 → Few n
  two_radios : n ≡ 2 → Few n

few_cases : (n : ℕ) → n ≤ 2 → Few n
few_cases zero h = zero_radios refl
few_cases (suc zero) h = one_radio refl
few_cases (suc (suc zero)) h = two_radios refl
few_cases (suc (suc (suc n))) h = absurd (omega arith)

module _ {D : Type 0} (d : Doubles D) (draw : D) (a : App D) (h : IsReady a) where
  -- What a packet causes after a command, by the command alone: the first radio serves `channel00`
  -- if any radio runs, the second serves `channel10` if two run.
  abbrev pub departures : MosaicConfigurationCmd D → MosaicAppPacket → List (Output D)
  departures cmd p =
      if ltb 0 cmd.num_radios && eq_ℤ p.channel_id cmd.channel00
      then departure d draw a p h.i0 ∷ []
      else (if ltb 1 cmd.num_radios && eq_ℤ p.channel_id cmd.channel10
          then departure d draw a p h.i1 ∷ []
          else [])

  module _ (cmd : MosaicConfigurationCmd D) (p : MosaicAppPacket) where
    -- The command, and then the packet.
    abbrev pub configure_and_send : Outcome (App D)
    configure_and_send =
        handle_configuration d a cmd >>= λ b. handle_message_when_up d draw b fed_in (app_packet p)

    departures_zero :
        cmd.num_radios ≡ 0 → Ends configure_and_send (λ b. b.sent ≡ a.sent ++ departures cmd p)
    unfolding handle_message_when_up
    departures_zero e = rw (handle_zero d a cmd h e, e) (ground (arith, append-nil a.sent))

    departures_one :
        cmd.num_radios ≡ 1
        → cmd.numchannels0 ≡ 1
        → is_taken d cmd ≡ true
        → Ends configure_and_send (λ b. b.sent ≡ a.sent ++ departures cmd p)
    unfolding handle_message_when_up
    departures_one e s taken =
        rw (handle_one d a cmd h e s taken) (elim (Bool-cases (eq_ℤ p.channel_id cmd.channel00)) [
          | inl q ↦ rw (q, e) refl
          | inr q ↦ rw (q, e) (sym (append-nil a.sent))
        ])

    departures_two :
        cmd.num_radios ≡ 2
        → cmd.numchannels0 ≡ 1
        → cmd.numchannels1 ≡ 1
        → is_taken d cmd ≡ true
        → Ends configure_and_send (λ b. b.sent ≡ a.sent ++ departures cmd p)
    unfolding handle_message_when_up
    departures_two e s t taken =
        rw (handle_two d a cmd h e s t taken) (elim (Bool-cases (eq_ℤ p.channel_id cmd.channel00)) [
          | inl q ↦ rw (q, e) refl
          | inr q ↦ elim (Bool-cases (eq_ℤ p.channel_id cmd.channel10)) [
            | inl r ↦ rw (q, r, e) refl
            | inr r ↦ rw (q, r, e) (sym (append-nil a.sent))
          ]
        ])

    -- On a ready application the command and then a packet always return, if at most two radios are
    -- asked for, each on a single channel that INET's radios take. The packet leaves as the command says, or not at all,
    -- whatever channels and modes the radios had before.
    pub configure_and_send-departures :
        IsSimple cmd
        → is_taken d cmd ≡ true
        → Ends configure_and_send (λ b. b.sent ≡ a.sent ++ departures cmd p)
    configure_and_send-departures simple taken = elim (few_cases cmd.num_radios simple.few) [
      | zero_radios e ↦ departures_zero e
      | one_radio e ↦ departures_one e (simple.single0 (omega arith)) taken
      | two_radios e ↦
          departures_two e (simple.single0 (omega arith)) (simple.single1 (omega arith)) taken
    ]

  -- The command alone sends nothing.
  pub handle_configuration-silent :
      (cmd : MosaicConfigurationCmd D)
      → IsSimple cmd
      → is_taken d cmd ≡ true
      → Ends (handle_configuration d a cmd) (λ b. b.sent ≡ a.sent)
  handle_configuration-silent cmd simple taken = elim (few_cases cmd.num_radios simple.few) [
    | zero_radios e ↦ rw (handle_zero d a cmd h e) refl
    | one_radio e ↦ rw (handle_one d a cmd h e (simple.single0 (omega arith)) taken) refl
    | two_radios e ↦
        rw
          (handle_two d a cmd h e (simple.single0 (omega arith)) (simple.single1 (omega arith))
            taken)
          refl
  ]

  -- To feed the command in is to handle it.
  pub fed_in-configuration :
      (cmd : MosaicConfigurationCmd D)
      → handle_message_when_up d draw a fed_in (configuration cmd) ≡ handle_configuration d a cmd
  unfolding handle_message_when_up
  fed_in-configuration cmd = refl
