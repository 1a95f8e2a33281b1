-- ===== src/Proxy/Modes.antt =====
-- `connectRadios` of src/node/MosaicProxyApp.cc against the table in its comment: with n radios the
-- first n are in receiver mode and the others are off.
use omnetpp_federate.Prelude.{ℕ, zero, suc, ◌≤◌, ◌≡◌, some, arith}
use omnetpp_federate.Prelude.Outcome.{done}
use omnetpp_federate.Proxy.Radios.{App, Radio, RadioMode, off, receiver, connect_radios}

abbrev mode0 : ℕ → RadioMode
mode0 zero = off
mode0 (suc n) = receiver

abbrev pub mode1 : ℕ → RadioMode
mode1 zero = off
mode1 (suc zero) = off
mode1 (suc (suc n)) = receiver

-- The application has both radios, and they are switched as `num_radios` says.
pub record IsSwitched {D : Type 0} (a : App D) (r0 r1 : Radio D) : Type 0 where
  pub has0 : a.radio0 ≡ some r0
  pub has1 : a.radio1 ≡ some r1
  pub on0 : r0.mode ≡ mode0 a.num_radios
  pub on1 : r1.mode ≡ mode1 a.num_radios
  pub few : a.num_radios ≤ 2

module _ {D : Type 0} where
  abbrev pub switched : App D → Radio D → Radio D → ℕ → App D
  switched a r0 r1 n = record a {
    radio0 = some (record r0 { mode = mode0 n });
    radio1 = some (record r1 { mode = mode1 n });
    num_radios = n;
  }

  -- With both radios there and switched as `num_radios` says, a call for at most two radios returns,
  -- and then they are switched as it says; nothing else changes.
  pub connect_radios-switched :
      (a : App D) (r0 r1 : Radio D) (n : ℕ)
      → IsSwitched a r0 r1
      → n ≤ 2
      → connect_radios a n ≡ done (switched a r0 r1 n)
  unfolding connect_radios
  connect_radios-switched a r0 r1 zero h le = ground arith
  connect_radios-switched a r0 r1 (suc zero) h le = ground arith
  connect_radios-switched a r0 r1 (suc (suc zero)) h le = ground arith
  connect_radios-switched a r0 r1 (suc (suc (suc n))) h le = absurd (omega arith)
