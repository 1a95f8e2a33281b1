-- ===== src/Proxy/Settings.antt =====
-- `handleConfiguration` of src/node/MosaicProxyApp.cc: when it returns, and what it leaves.
use omnetpp_federate.Prelude.{
  ℕ, zero, suc, ◌≡◌, refl, arith, leb, if◌then◌else◌, Bool-cases, inl, inr, ◌==◌, ◌&&◌, Bool, true,
  false, ◌⊎◌,
}
use omnetpp_federate.Prelude.Outcome.{Outcome, done, stop, Ends, runtime_error}
use omnetpp_federate.Messages.{MosaicConfigurationCmd}
use omnetpp_federate.Proxy.Radios.{
  Doubles, App, off, receiver, tuned, set_address, disconnect, configure_one, configure_two,
  handle_configuration,
}
use omnetpp_federate.Proxy.Modes.{switched}
use omnetpp_federate.Proxy.Branches.{
  IsReady, taken_at, is_taken, by_number, above_two, tuned_both, disconnect_lem, configure_one_lem,
  configure_two_lem, handle_configuration_lem,
}

module _ {D : Type 0} (d : Doubles D) where
  -- The application is left with the property, or INET has refused a channel.
  abbrev Settled : Bool → Outcome (App D) → (App D → Type 0) → Type 0
  Settled taken o P =
      ((taken ≡ true) × Ends o P) ⊎ ((taken ≡ false) × (b : App D) × (o ≡ stop runtime_error b))

  module _ (a : App D) (cmd : MosaicConfigurationCmd D) (h : IsReady a) where
    open h use {r0, r1, i0, i1, radios}

    disconnect-IsReady : Ends (disconnect a) (λ b. IsReady b × (b.num_radios ≡ 0))
    disconnect-IsReady = rw (disconnect_lem d a cmd h) (
      record {
        r0 = record r0 { mode = off };
        r1 = record r1 { mode = off };
        i0 = i0;
        i1 = i1;
        radios = ground arith;
        wired0 = h.wired0;
        wired1 = h.wired1;
      },
      refl,
    )

    configure_one-Settled :
        Settled (taken_at d cmd 1) (configure_one d a i0 cmd) (λ b. IsReady b × (b.num_radios ≡ 1))
    unfolding tuned
    configure_one-Settled =
        rw (configure_one_lem d a cmd h) (elim (Bool-cases (cmd.numchannels0 == 1)) [
          | inl e ↦ elim (Bool-cases (d.takes cmd.channel00)) [
            | inl q ↦
                rw (e, q)
                  (inl (
                    refl,
                    (
                      record {
                        r0 = tuned d (record r0 { mode = receiver }) cmd.channel00 cmd.power0;
                        r1 = record r1 { mode = off };
                        i0 = set_address i0 cmd.ip0 cmd.subnet0;
                        i1 = i1;
                        radios = ground arith;
                        wired0 = refl;
                        wired1 = h.wired1;
                      },
                      refl,
                    ),
                  ))
            | inr q ↦ rw (e, q) (inr (refl, _, refl))
          ]
          | inr e ↦ rw e (
              inl (
                refl,
                (
                  record {
                    r0 = record r0 { mode = receiver };
                    r1 = record r1 { mode = off };
                    i0 = set_address i0 cmd.ip0 cmd.subnet0;
                    i1 = i1;
                    radios = ground arith;
                    wired0 = refl;
                    wired1 = h.wired1;
                  },
                  refl,
                ),
              ))
        ])

    two_tuned-IsReady : IsReady (tuned_both d a r0 r1 i0 i1 cmd)
    unfolding tuned
    two_tuned-IsReady = record {
      r0 = tuned d (record r0 { mode = receiver }) cmd.channel00 cmd.power0;
      r1 = tuned d (record r1 { mode = receiver }) cmd.channel10 cmd.power1;
      i0 = set_address i0 cmd.ip0 cmd.subnet0;
      i1 = set_address i1 cmd.ip1 cmd.subnet1;
      radios = ground arith;
      wired0 = refl;
      wired1 = refl;
    }

    two_switched-IsReady : IsReady (switched a r0 r1 2)
    two_switched-IsReady = record {
      r0 = record r0 { mode = receiver };
      r1 = record r1 { mode = receiver };
      i0 = i0;
      i1 = i1;
      radios = ground arith;
      wired0 = h.wired0;
      wired1 = h.wired1;
    }

    configure_two-Settled :
        Settled
          (taken_at d cmd 2)
          (configure_two d a i0 i1 cmd)
          (λ b. IsReady b × (b.num_radios ≡ 2))
    configure_two-Settled =
        rw (configure_two_lem d a cmd h)
          (elim (Bool-cases (cmd.numchannels0 == 1 && cmd.numchannels1 == 1)) [
            | inr e ↦ rw e (inl (refl, (two_switched-IsReady, refl)))
            | inl e ↦ elim (Bool-cases (d.takes cmd.channel00)) [
              | inr q ↦ rw (e, q) (inr (refl, _, refl))
              | inl q ↦ elim (Bool-cases (d.takes cmd.channel10)) [
                | inl r ↦ rw (e, q, r) (inl (refl, (two_tuned-IsReady, refl)))
                | inr r ↦ rw (e, q, r) (inr (refl, _, refl))
              ]
            ]
          ])

    -- On a ready application a configuration command uses no null pointer. If INET's radios take each
    -- channel that it sets, it returns: the application stays ready, and as many radios run as the
    -- command says, or as many as before if it asks for more than two. Else it throws.
    pub handle_configuration-IsReady : Settled (is_taken d cmd) (handle_configuration d a cmd) (λ b.
        IsReady b
        × (b.num_radios ≡ (if leb cmd.num_radios 2 then cmd.num_radios else a.num_radios)))
    handle_configuration-IsReady = rw (handle_configuration_lem d a cmd h) (choose cmd.num_radios)
      where
        choose :
            (n : ℕ)
            → Settled
                (taken_at d cmd n)
                (by_number n
                  (disconnect a)
                  (configure_one d a i0 cmd)
                  (configure_two d a i0 i1 cmd)
                  (done a))
                (λ b. IsReady b × (b.num_radios ≡ (if leb n 2 then n else a.num_radios)))
        choose zero = inl (refl, disconnect-IsReady)
        choose (suc zero) = configure_one-Settled
        choose (suc (suc zero)) = configure_two-Settled
        choose (suc (suc (suc n))) =
            rw (above_two n (disconnect a) _ _ (done a)) (inl (refl, (h, ground arith)))
