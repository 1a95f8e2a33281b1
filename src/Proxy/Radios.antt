-- ===== src/Proxy/Radios.antt =====
-- The state of `MosaicProxyApp`, `connectRadios` and `handleConfiguration` (src/node/MosaicProxyApp.cc).
-- INET's radios and interfaces are external: a record of either holds what the application found
-- in it and what it last set by its setters. The radio pointers are kept apart from the interfaces,
-- since the code does not reach a radio through its interface after the start-up.
use Prim.Native.String.{String}
use omnetpp_federate.Prelude.{
  ℕ, zero, suc, Bool, true, Option, none, some, List, ltb, ◌==◌, if◌then◌else◌, ◌&&◌,
}
use omnetpp_federate.Prelude.Int.{ℤ, negsuc}
use omnetpp_federate.Prelude.Outcome.{Outcome, done, stop, ◌>>=◌, null_pointer, runtime_error}
use omnetpp_federate.Messages.{MosaicConfigurationCmd, MosaicAppPacket}

-- What the application does with a `double`, and whether INET's `setChannelNumber` takes a channel
-- number or throws, since the band of the radio has no such channel.
pub record Doubles (D : Type 0) : Type 0 where
  pub times : D → D → D
  pub div_1000 : D → D
  pub above_minus_one : D → Bool
  pub takes : ℤ → Bool

pub data RadioMode : Type 0 where
  off receiver : RadioMode

pub record Radio (D : Type 0) : Type 0 where
  pub mode : RadioMode
  pub channel_number : ℤ
  pub power : D

pub record NetworkInterface (D : Type 0) : Type 0 where
  pub full_name : String
  pub is_loopback : Bool
  pub interface_id : ℤ
  pub radio : Option (Radio D)  -- the submodule "radio", if it is an `Ieee80211Radio`
  pub ip_address : ℕ
  pub netmask : ℕ
  pub broadcast : Bool

pub data OperationalState : Type 0 where
  operating not_operating : OperationalState

pub record UdpPacket : Type 0 where
  pub payload : MosaicAppPacket
  pub src_address : ℕ
  pub dest_address : ℕ
  pub dest_port : ℤ
  pub interface_id : ℤ

-- What leaves the application, by its gate: `socketOut` after a delay, or `fedOut`.
pub data Output (D : Type 0) : Type 0 where
  to_socket : UdpPacket → D → Output D
  to_federate : MosaicAppPacket → Output D

pub record App (D : Type 0) : Type 0 where
  pub external_id : ℤ
  pub local_address : ℕ
  pub local_port : ℤ
  pub dest_port : ℤ
  pub max_proc_delay : D
  pub bound : Option (ℕ × ℤ)
  pub broadcast : Bool
  pub num_radios : ℕ
  pub radio0 : Option (Radio D)
  pub radio1 : Option (Radio D)
  pub ie0 : Option (NetworkInterface D)
  pub ie1 : Option (NetworkInterface D)
  pub radio0_channel : ℤ
  pub radio1_channel : ℤ
  pub state : OperationalState
  pub sent : List (Output D)

module _ {D : Type 0} where
  unfoldable set_mode0 : App D → RadioMode → Outcome (App D)
  set_mode0 a m = elim a.radio0 [
    | none ↦ stop null_pointer a
    | some r ↦ done (record a { radio0 = some (record r { mode = m }) })
  ]

  unfoldable set_mode1 : App D → RadioMode → Outcome (App D)
  set_mode1 a m = elim a.radio1 [
    | none ↦ stop null_pointer a
    | some r ↦ done (record a { radio1 = some (record r { mode = m }) })
  ]

  unfoldable pub connect_radios : App D → ℕ → Outcome (App D)
  unfolding set_mode0 set_mode1
  connect_radios a zero = do
    b ←
        if ltb 0 a.num_radios
        then (set_mode0 a off >>= λ b. if ltb 1 b.num_radios then set_mode1 b off else done b)
        else done a
    done (record b { num_radios = 0 })
  connect_radios a (suc zero) = do
    b ← if a.num_radios == 0 then set_mode0 a receiver else done a
    c ← if b.num_radios == 2 then set_mode1 b off else done b
    done (record c { num_radios = 1 })
  connect_radios a (suc (suc zero)) = do
    b ←
        if ltb a.num_radios 2
        then ((if a.num_radios == 0 then set_mode0 a receiver else done a) >>= λ b.
            set_mode1 b receiver)
        else done a
    done (record b { num_radios = 2 })
  connect_radios a _ = done a

  -- A radio behind `setChannelNumber`, and `setPower` unless the power is at most -1; the command has
  -- it in mW.
  unfoldable pub tuned : Doubles D → Radio D → ℤ → D → Radio D
  tuned d r channel power =
      if d.above_minus_one power
      then record r { channel_number = channel; power = d.div_1000 power }
      else record r { channel_number = channel }

  unfoldable tune0 : Doubles D → App D → ℤ → D → Outcome (App D)
  unfolding tuned
  tune0 d a channel power = elim a.radio0 [
    | none ↦ stop null_pointer a
    | some r ↦
        if d.takes channel
        then done (record a { radio0 = some (tuned d r channel power); radio0_channel = channel })
        else stop runtime_error a
  ]

  unfoldable tune1 : Doubles D → App D → ℤ → D → Outcome (App D)
  unfolding tuned
  tune1 d a channel power = elim a.radio1 [
    | none ↦ stop null_pointer a
    | some r ↦
        if d.takes channel
        then done (record a { radio1 = some (tuned d r channel power); radio1_channel = channel })
        else stop runtime_error a
  ]

  abbrev pub set_address : NetworkInterface D → ℕ → ℕ → NetworkInterface D
  set_address i ip mask = record i { ip_address = ip; netmask = mask; broadcast = true }

  -- The branches of `handleConfiguration` for one and for two radios; the interfaces are not null.
  unfoldable pub configure_one :
      Doubles D → App D → NetworkInterface D → MosaicConfigurationCmd D → Outcome (App D)
  unfolding tune0
  configure_one d a i0 cmd = do
    b ← connect_radios a 1
    c ← if cmd.numchannels0 == 1 then tune0 d b cmd.channel00 cmd.power0 else done b
    done (record c { ie0 = some (set_address i0 cmd.ip0 cmd.subnet0) })

  unfoldable tune_both :
      Doubles D
      → App D
      → NetworkInterface D
      → NetworkInterface D
      → MosaicConfigurationCmd D
      → Outcome (App D)
  unfolding tune0 tune1
  tune_both d a i0 i1 cmd = do
    b ← tune0 d a cmd.channel00 cmd.power0
    c ← tune1 d b cmd.channel10 cmd.power1
    done (record c {
      ie0 = some (set_address i0 cmd.ip0 cmd.subnet0);
      ie1 = some (set_address i1 cmd.ip1 cmd.subnet1);
    })

  unfoldable pub configure_two :
      Doubles D
      → App D
      → NetworkInterface D
      → NetworkInterface D
      → MosaicConfigurationCmd D
      → Outcome (App D)
  unfolding tune_both
  configure_two d a i0 i1 cmd = do
    b ← connect_radios a 2
    (if cmd.numchannels0 == 1 && cmd.numchannels1 == 1 then tune_both d b i0 i1 cmd else done b)

  unfoldable pub disconnect : App D → Outcome (App D)
  disconnect a = do
    b ← connect_radios a 0
    done (record b { radio0_channel = negsuc 0; radio1_channel = negsuc 0 })

  -- Nothing happens if an interface is missing, or for more than two radios.
  unfoldable pub reconfigure :
      Doubles D
      → App D
      → Option (NetworkInterface D)
      → Option (NetworkInterface D)
      → MosaicConfigurationCmd D
      → Outcome (App D)
  reconfigure d a (some i0) (some i1) cmd =
      if cmd.num_radios == 1
      then configure_one d a i0 cmd
      else (if cmd.num_radios == 2 then configure_two d a i0 i1 cmd else done a)
  reconfigure d a _ _ cmd = done a

  unfoldable pub handle_configuration :
      Doubles D → App D → MosaicConfigurationCmd D → Outcome (App D)
  unfolding reconfigure
  handle_configuration d a cmd =
      if cmd.num_radios == 0 then disconnect a else reconfigure d a a.ie0 a.ie1 cmd
