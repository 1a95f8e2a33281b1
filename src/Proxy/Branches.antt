-- ===== src/Proxy/Branches.antt =====
-- The branches of `handleConfiguration` of src/node/MosaicProxyApp.cc, and what each leaves.
use omnetpp_federate.Prelude.{
  ℕ, zero, suc, ◌≡◌, refl, some, arith, if◌then◌else◌, ◌==◌, ◌&&◌, ◌||◌, not, Bool, true,
}
use omnetpp_federate.Prelude.Int.{ℤ, negsuc}
use omnetpp_federate.Prelude.Outcome.{done, stop, runtime_error}
use omnetpp_federate.Messages.{MosaicConfigurationCmd}
use omnetpp_federate.Proxy.Radios.{
  Doubles, App, Radio, NetworkInterface, receiver, tuned, set_address, disconnect, configure_one,
  configure_two, reconfigure, handle_configuration,
}
use omnetpp_federate.Proxy.Modes.{IsSwitched, switched, connect_radios-switched}

-- Both radios and both interfaces are there, and the radios are switched as `num_radios` says.
pub record IsReady {D : Type 0} (a : App D) : Type 0 where
  pub r0 : Radio D
  pub r1 : Radio D
  pub i0 : NetworkInterface D
  pub i1 : NetworkInterface D
  pub radios : IsSwitched a r0 r1
  pub open radios use *
  pub wired0 : a.ie0 ≡ some i0
  pub wired1 : a.ie1 ≡ some i1

-- The four ways of a command, by its number of radios.
abbrev pub by_number {ℓ} : {A : Type ℓ} → ℕ → A → A → A → A → A
by_number n zero_radios one two more =
    if n == 0 then zero_radios else (if n == 1 then one else (if n == 2 then two else more))

pub above_two {ℓ} :
    {A : Type ℓ} (n : ℕ) (zero_radios one two more : A)
    → by_number (suc (suc (suc n))) zero_radios one two more ≡ more
above_two n zero_radios one two more = ground arith

module _ {D : Type 0} (d : Doubles D) where
  -- INET takes each channel that a command for so many radios sets.
  abbrev pub taken_at : MosaicConfigurationCmd D → ℕ → Bool
  taken_at cmd zero = true
  taken_at cmd (suc zero) = not (cmd.numchannels0 == 1) || d.takes cmd.channel00
  taken_at cmd (suc (suc zero)) =
      not (cmd.numchannels0 == 1 && cmd.numchannels1 == 1)
      || (d.takes cmd.channel00 && d.takes cmd.channel10)
  taken_at cmd (suc (suc (suc n))) = true

  abbrev pub is_taken : MosaicConfigurationCmd D → Bool
  is_taken cmd = taken_at cmd cmd.num_radios

  -- The first radio, or both, after a command for single-channel radios.
  abbrev pub tuned0 : App D → ℤ → D → Radio D → App D
  tuned0 a c p r = record a { radio0 = some (tuned d r c p); radio0_channel = c }

  abbrev pub tuned_both :
      App D
      → Radio D
      → Radio D
      → NetworkInterface D
      → NetworkInterface D
      → MosaicConfigurationCmd D
      → App D
  tuned_both a r0 r1 i0 i1 cmd = record a {
    radio0 = some (tuned d (record r0 { mode = receiver }) cmd.channel00 cmd.power0);
    radio0_channel = cmd.channel00;
    radio1 = some (tuned d (record r1 { mode = receiver }) cmd.channel10 cmd.power1);
    radio1_channel = cmd.channel10;
    num_radios = 2;
    ie0 = some (set_address i0 cmd.ip0 cmd.subnet0);
    ie1 = some (set_address i1 cmd.ip1 cmd.subnet1);
  }

  module _ (a : App D) (cmd : MosaicConfigurationCmd D) (h : IsReady a) where
    open h use {r0, r1, i0, i1, radios}

    pub disconnect_lem :
        disconnect a
        ≡ done
            (record (switched a r0 r1 0) { radio0_channel = negsuc 0; radio1_channel = negsuc 0 })
    unfolding disconnect
    disconnect_lem = rw (connect_radios-switched a r0 r1 0 radios (omega arith))

    -- The first radio is on the channel, of one or of two.
    abbrev pub first_on : ℕ → App D
    first_on n =
        tuned0 (switched a r0 r1 n) cmd.channel00 cmd.power0 (record r0 { mode = receiver })

    pub configure_one_lem : configure_one d a i0 cmd ≡ (
        if cmd.numchannels0 == 1
        then (if d.takes cmd.channel00
            then done (record (first_on 1) { ie0 = some (set_address i0 cmd.ip0 cmd.subnet0) })
            else stop runtime_error (switched a r0 r1 1))
        else done (record (switched a r0 r1 1) { ie0 = some (set_address i0 cmd.ip0 cmd.subnet0) }))
    unfolding configure_one
    configure_one_lem = rw (connect_radios-switched a r0 r1 1 radios (omega arith)) (ground arith)

    pub configure_two_lem : configure_two d a i0 i1 cmd ≡ (
        if cmd.numchannels0 == 1 && cmd.numchannels1 == 1
        then (if d.takes cmd.channel00
            then (if d.takes cmd.channel10
                then done (tuned_both a r0 r1 i0 i1 cmd)
                else stop runtime_error (first_on 2))
            else stop runtime_error (switched a r0 r1 2))
        else done (switched a r0 r1 2))
    unfolding configure_two
    configure_two_lem = rw (connect_radios-switched a r0 r1 2 radios (omega arith)) (ground arith)

    -- The branch that the command takes.
    pub handle_configuration_lem :
        handle_configuration d a cmd
        ≡ by_number cmd.num_radios
            (disconnect a)
            (configure_one d a i0 cmd)
            (configure_two d a i0 i1 cmd)
            (done a)
    unfolding handle_configuration reconfigure
    handle_configuration_lem = rw (h.wired0, h.wired1)

    pub handle_zero :
        cmd.num_radios ≡ 0
        → handle_configuration d a cmd
          ≡ done
              (record (switched a r0 r1 0) { radio0_channel = negsuc 0; radio1_channel = negsuc 0 })
    handle_zero e = ground (arith, handle_configuration_lem, disconnect_lem)

    pub handle_one :
        cmd.num_radios ≡ 1
        → cmd.numchannels0 ≡ 1
        → is_taken cmd ≡ true
        → handle_configuration d a cmd
          ≡ done (record (first_on 1) { ie0 = some (set_address i0 cmd.ip0 cmd.subnet0) })
    handle_one e s taken =
        let takes : d.takes cmd.channel00 ≡ true = rw⁻¹ taken (rw (e, s) refl) in
        ground (arith, handle_configuration_lem, configure_one_lem, takes)

    pub handle_two :
        cmd.num_radios ≡ 2
        → cmd.numchannels0 ≡ 1
        → cmd.numchannels1 ≡ 1
        → is_taken cmd ≡ true
        → handle_configuration d a cmd ≡ done (tuned_both a r0 r1 i0 i1 cmd)
    handle_two e s t taken =
        let both : (d.takes cmd.channel00 && d.takes cmd.channel10) ≡ true =
          rw⁻¹ taken (rw (e, s, t) refl) in
        ground (arith, handle_configuration_lem, configure_two_lem, both)
