-- ===== src/Delivery/Commands.antt =====
-- From the messages of ClientServerChannelMessages.proto to the commands that
-- src/mgmt/MosaicEventScheduler.cc makes of them: nodes, channels, radios.
use omnetpp_federate.Prelude.{
  ℕ, ◌<◌, ◌≡◌, ◌^◌, ◌∙◌, refl, ap, arith, ltb, Bool-cases, inl, inr, false,
}
use omnetpp_federate.Prelude.Int.{pos, to_i32, to_u32}
use omnetpp_federate.Messages.{MosaicConfigurationCmd, conf_radio}
use omnetpp_federate.Channel.Types.{
  ProtoChannel, proto_sch1, proto_sch2, proto_sch3, proto_cch, proto_sch4, proto_sch5, proto_sch6,
  proto_undef, RadioNumber, no_radio, single_radio, dual_radio, single_channel, ConfigMessage,
  ConfigureRadioMessage, RadioConfig, RadioConfiguration,
}
use omnetpp_federate.Channel.Convert.{proto_channel_to_channel, channel_to_proto_channel}
use omnetpp_federate.Channel.Read.Messages.{fill_mode, fill_radio, fill_radios, fill_config}
use omnetpp_federate.Scheduler.Simulation.{configuration}
use omnetpp_federate.Scheduler.Commands.{
  int_of_channel, channel_of_int, number_of_radios, blank, set_radio0, set_radio1, configure_radios,
  configuration_payload,
}
use omnetpp_federate.Proxy.Sending.{IsSimple}

-- The number that the .proto file gives a channel.
abbrev pub channel_number : ProtoChannel → ℕ
channel_number proto_sch1 = 0
channel_number proto_sch2 = 1
channel_number proto_sch3 = 2
channel_number proto_cch = 3
channel_number proto_sch4 = 4
channel_number proto_sch5 = 5
channel_number proto_sch6 = 6
channel_number proto_undef = 7

pub int_of_channel-channel_number :
    (p : ProtoChannel) → int_of_channel (proto_channel_to_channel p) ≡ pos (channel_number p)
unfolding int_of_channel proto_channel_to_channel
int_of_channel-channel_number proto_sch1 = refl
int_of_channel-channel_number _ = refl

-- A channel on its way to the nodes and back.
pub channel_of_int-channel_number :
    (p : ProtoChannel) → channel_to_proto_channel (channel_of_int (pos (channel_number p))) ≡ p
unfolding channel_of_int channel_to_proto_channel
channel_of_int-channel_number proto_sch1 = refl
channel_of_int-channel_number _ = refl

pub to_u32-to_i32 : (n : ℕ) → n < 2 ^ 32 → to_u32 (to_i32 n) ≡ n
unfolding to_u32 to_i32
to_u32-to_i32 n h = elim (Bool-cases (ltb n (2 ^ 31))) [
  | inl e ↦ rw (to_i32, e) (omega arith)
  | inr e ↦ rw (to_i32, e) (ground arith)
]

-- With so many radios, each radio that runs is on a single channel.
pub record IsSingle {D : Type 0} (message : ConfigureRadioMessage D) (n : RadioNumber)
    : Type 0 where
  pub first :
      0 < number_of_radios n → message.primary_radio_configuration.radio_mode ≡ single_channel
  pub second :
      1 < number_of_radios n → message.secondary_radio_configuration.radio_mode ≡ single_channel

-- What a command for so many radios holds of the message that it was made of.
pub record IsFor {D : Type 0} (message : ConfigureRadioMessage D) (n : RadioNumber)
    (cmd : MosaicConfigurationCmd D) : Type 0 where
  pub node : cmd.node_id ≡ to_i32 message.external_id
  pub radios : cmd.num_radios ≡ number_of_radios n
  pub channel0 :
      0 < number_of_radios n
      → cmd.channel00
        ≡ pos (channel_number message.primary_radio_configuration.primary_radio_channel)
  pub channel1 :
      1 < number_of_radios n
      → cmd.channel10
        ≡ pos (channel_number message.secondary_radio_configuration.primary_radio_channel)
  pub simple : IsSimple cmd

module _ {D : Type 0} (zero_double : D) where
  -- The command that is to be made of a message, without radios, and one radio on its single channel.
  abbrev bare : ConfigureRadioMessage D → RadioNumber → MosaicConfigurationCmd D
  bare message n = record {
    msg_id = to_i32 message.message_id;
    node_id = to_i32 message.external_id;
    num_radios = number_of_radios n;
    cmd_type = conf_radio;
    turned_on0 = false;
    ip0 = 0;
    subnet0 = 0;
    power0 = zero_double;
    numchannels0 = 0;
    channel00 = pos 0;
    channel01 = pos 0;
    turned_on1 = false;
    ip1 = 0;
    subnet1 = 0;
    power1 = zero_double;
    numchannels1 = 0;
    channel10 = pos 0;
    channel11 = pos 0;
  }

  abbrev with_first : RadioConfiguration D → MosaicConfigurationCmd D → MosaicConfigurationCmd D
  with_first radio cmd = record cmd {
    turned_on0 = radio.receiving_messages;
    ip0 = radio.ip_address;
    subnet0 = radio.subnet_address;
    power0 = radio.transmission_power;
    numchannels0 = 1;
    channel00 = pos (channel_number radio.primary_radio_channel);
    channel01 = pos 0;
  }

  abbrev with_second : RadioConfiguration D → MosaicConfigurationCmd D → MosaicConfigurationCmd D
  with_second radio cmd = record cmd {
    turned_on1 = radio.receiving_messages;
    ip1 = radio.ip_address;
    subnet1 = radio.subnet_address;
    power1 = radio.transmission_power;
    numchannels1 = 1;
    channel10 = pos (channel_number radio.primary_radio_channel);
    channel11 = pos 0;
  }

  -- With so many radios.
  abbrev pub asked_for : ConfigureRadioMessage D → RadioNumber → MosaicConfigurationCmd D
  asked_for message no_radio = bare message no_radio
  asked_for message single_radio =
      with_first message.primary_radio_configuration (bare message single_radio)
  asked_for message dual_radio =
      with_second message.secondary_radio_configuration
        (with_first message.primary_radio_configuration (bare message dual_radio))

  pub asked_for-IsFor :
      (message : ConfigureRadioMessage D) (n : RadioNumber) → IsFor message n (asked_for message n)
  asked_for-IsFor message no_radio = record {
    node = refl;
    radios = refl;
    channel0 = λ h. absurd (omega arith);
    channel1 = λ h. absurd (omega arith);
    simple = record {
      few = omega arith;
      single0 = λ h. absurd (omega arith);
      single1 = λ h. absurd (omega arith);
    };
  }
  asked_for-IsFor message single_radio = record {
    node = refl;
    radios = refl;
    channel0 = λ h. refl;
    channel1 = λ h. absurd (omega arith);
    simple = record { few = omega arith; single0 = λ h. refl; single1 = λ h. absurd (omega arith) };
  }
  asked_for-IsFor message dual_radio = record {
    node = refl;
    radios = refl;
    channel0 = λ h. refl;
    channel1 = λ h. refl;
    simple = record { few = omega arith; single0 = λ h. refl; single1 = λ h. refl };
  }

  module _ (ret : RadioConfig D) (radio : RadioConfiguration D)
      (single : radio.radio_mode ≡ single_channel) (cmd : MosaicConfigurationCmd D) where
    set_radio0-with_first : set_radio0 zero_double (fill_radio ret radio) cmd ≡ with_first radio cmd
    unfolding set_radio0 fill_radio fill_mode
    set_radio0-with_first =
        rw (single, int_of_channel-channel_number radio.primary_radio_channel) refl

    set_radio1-with_second :
        set_radio1 zero_double (fill_radio ret radio) cmd ≡ with_second radio cmd
    unfolding set_radio1 fill_radio fill_mode
    set_radio1-with_second =
        rw (single, int_of_channel-channel_number radio.primary_radio_channel) refl

  module _ (junk : ConfigMessage D) (message : ConfigureRadioMessage D) where
    abbrev head : ConfigMessage D
    head = record junk {
      time = message.time;
      msg_id = to_i32 message.message_id;
      node_id = to_i32 message.external_id;
    }

    abbrev made : RadioNumber → MosaicConfigurationCmd D
    made n =
        let filled = fill_radios head message n in
        configure_radios zero_double filled filled.num_radios

    made-asked_for : (n : RadioNumber) → IsSingle message n → made n ≡ asked_for message n
    unfolding fill_radios configure_radios blank
    made-asked_for no_radio single = refl
    made-asked_for single_radio single =
        set_radio0-with_first junk.primary_radio message.primary_radio_configuration
          (single.first (omega arith)) (bare message single_radio)
    made-asked_for dual_radio single =
        let first : RadioConfig D =
          fill_radio junk.primary_radio message.primary_radio_configuration in
        set_radio1-with_second junk.secondary_radio message.secondary_radio_configuration
          (single.second (omega arith)) (set_radio0 zero_double first (bare message dual_radio))
        ∙ ap (with_second message.secondary_radio_configuration) (
            set_radio0-with_first junk.primary_radio message.primary_radio_configuration
              (single.first (omega arith)) (bare message dual_radio))

    -- A message that asks for single-channel radios becomes just the command that it is to become,
    -- whatever the uninitialised struct held.
    pub configuration_payload-asked_for :
        IsSingle message message.radio_number
        → configuration_payload zero_double (fill_config junk message)
          ≡ configuration (asked_for message message.radio_number)
    unfolding configuration_payload fill_config
    configuration_payload-asked_for single =
        ap configuration (made-asked_for message.radio_number single)
