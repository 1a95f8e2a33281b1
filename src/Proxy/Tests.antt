-- ===== src/Proxy/Tests.antt =====
-- The application of one node, and the theorems of `Proxy` for it.
use omnetpp_federate.Prelude.{
  ℕ, ◌⊎◌, ◌*◌, ◌/◌, ◌≡◌, refl, none, some, [], ◌∷◌, true, false, arith, leb,
}
use omnetpp_federate.Prelude.Int.{pos, negsuc, eq_ℤ}
use omnetpp_federate.Prelude.Outcome.{stop, Ends, runtime_error}
use omnetpp_federate.Messages.{conf_radio, MosaicAppPacket, MosaicConfigurationCmd}
use omnetpp_federate.Proxy.{Environment, initialize}
use omnetpp_federate.Proxy.Radios.{
  Doubles, Radio, NetworkInterface, App, off, not_operating, handle_configuration,
}
use omnetpp_federate.Proxy.Modes.{IsSwitched}
use omnetpp_federate.Proxy.Branches.{IsReady, is_taken}
use omnetpp_federate.Proxy.Settings.{handle_configuration-IsReady}
use omnetpp_federate.Proxy.Sending.{departure, configure_and_send, configure_and_send-departures}
use omnetpp_federate.Proxy.Startup.{Started, table, initialize-Started}

-- A `double` is a number of thousandths; above -1 are those from 1000 on.
abbrev pub doubles : Doubles ℕ
doubles = record {
  times = λ a b. a * b / 1000;
  div_1000 = λ a. a / 1000;
  above_minus_one = λ a. leb 1000 a;
  takes = λ c. true;
}

abbrev radio : Radio ℕ
radio = record { mode = off; channel_number = pos 1; power = 20 }

abbrev wlan0 : NetworkInterface ℕ
wlan0 = record {
  full_name = "wlan0";
  is_loopback = false;
  interface_id = pos 101;
  radio = some radio;
  ip_address = 0;
  netmask = 0;
  broadcast = false;
}

abbrev wlan1 : NetworkInterface ℕ
wlan1 = record wlan0 { full_name = "wlan1"; interface_id = pos 102 }

-- As the constructor leaves it.
abbrev fresh : App ℕ
fresh = record {
  external_id = pos 0;
  local_address = 0;
  local_port = pos 4001;
  dest_port = pos 4001;
  max_proc_delay = 1;
  bound = none;
  broadcast = false;
  num_radios = 0;
  radio0 = none;
  radio1 = none;
  ie0 = none;
  ie1 = none;
  radio0_channel = negsuc 0;
  radio1_channel = negsuc 0;
  state = not_operating;
  sent = [];
}

abbrev pub ready : App ℕ
ready = record fresh {
  radio0 = some radio;
  radio1 = some radio;
  ie0 = some wlan0;
  ie1 = some wlan1;
}

pub ready-IsSwitched : IsSwitched ready radio radio
ready-IsSwitched = record { has0 = refl; has1 = refl; on0 = refl; on1 = refl; few = omega arith }

abbrev pub ready-IsReady : IsReady ready
ready-IsReady = record {
  r0 = radio;
  r1 = radio;
  i0 = wlan0;
  i1 = wlan1;
  radios = ready-IsSwitched;
  wired0 = refl;
  wired1 = refl;
}

-- Both radios, on the channels 178 and 180.
abbrev pub two_radios : MosaicConfigurationCmd ℕ
two_radios = record {
  msg_id = pos 1;
  node_id = pos 0;
  num_radios = 2;
  cmd_type = conf_radio;
  turned_on0 = true;
  ip0 = 10;
  subnet0 = 255;
  power0 = 50000;
  numchannels0 = 1;
  channel00 = pos 178;
  channel01 = pos 0;
  turned_on1 = true;
  ip1 = 11;
  subnet1 = 255;
  power1 = 50000;
  numchannels1 = 1;
  channel10 = pos 180;
  channel11 = pos 0;
}

abbrev packet : MosaicAppPacket
packet = record {
  node_id = pos 0;
  msg_id = pos 5;
  length = pos 100;
  channel_id = pos 180;
  dest_addr = 4294967295;
}

handle_configuration-IsReady_example :
    ((is_taken doubles two_radios ≡ true)
      × Ends (handle_configuration doubles ready two_radios) (λ b. IsReady b × (b.num_radios ≡ 2)))
    ⊎ ((is_taken doubles two_radios ≡ false)
        × (b : App ℕ) × (handle_configuration doubles ready two_radios ≡ stop runtime_error b))
handle_configuration-IsReady_example =
    handle_configuration-IsReady doubles ready two_radios ready-IsReady

-- A radio without the second channel refuses the command.
refused : is_taken (record doubles { takes = λ c. eq_ℤ c (pos 178) }) two_radios ≡ false
refused = refl

configure_and_send-departures_example :
    Ends
      (configure_and_send doubles 1000 ready ready-IsReady two_radios packet)
      (λ b. b.sent ≡ departure doubles 1000 ready packet wlan1 ∷ [])
configure_and_send-departures_example =
    configure_and_send-departures doubles 1000 ready ready-IsReady two_radios packet
      (record { few = omega arith; single0 = λ h. refl; single1 = λ h. refl }) refl

abbrev environment : Environment ℕ
environment = record {
  local_port = pos 4001;
  dest_port = pos 4001;
  max_proc_delay = 1;
  local_address = "";
  resolve = λ name. 0;
  interfaces = some (wlan0 ∷ wlan1 ∷ []);
}

initialize-Started_example : Ends (initialize environment fresh 5) (Started (table environment))
initialize-Started_example =
    initialize-Started environment fresh
      (record { no_interface0 = refl; no_interface1 = refl; no_radios = refl })
