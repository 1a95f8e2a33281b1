-- ===== src/Delivery/Runs.antt =====
-- A run of src/mgmt/MosaicEventScheduler.cc and src/mgmt/MosaicScenarioManager.cc, and what the
-- applications of src/node/MosaicProxyApp.cc do with all that the manager sends in it.
use omnetpp_federate.Prelude.{
  ℕ, suc, Bool, true, ◌≡◌, ◌⊎◌, inl, inr, List, [], ◌∷◌, ◌++◌, if◌then◌else◌, Bool-cases, subst,
  sym, All, All-append,
}
use omnetpp_federate.Prelude.Int.{ℤ, eq_ℤ}
use omnetpp_federate.Prelude.Outcome.{Then, Ends, >>=-Ends}
use omnetpp_federate.Channel.Interface.{Channel}
use omnetpp_federate.Scheduler.Simulation.{Kernel, Payload, configuration}
use omnetpp_federate.Scheduler.{Scheduler, Junk}
use omnetpp_federate.Scenario.{Manager, Creator, Sending}
use omnetpp_federate.Scenario.Reports.Sendings.{IsAddressed, to_configure, to_send}
use omnetpp_federate.Scenario.Reports.Told.{handle_message-IsAddressed}
use omnetpp_federate.Proxy.{fed_in, handle_message_when_up}
use omnetpp_federate.Proxy.Radios.{Doubles, App}
use omnetpp_federate.Proxy.Branches.{IsReady, is_taken}
use omnetpp_federate.Proxy.Startup.{configure, carry, one_order}
use omnetpp_federate.Run.{managed, elsewhere, Run, stay, go}
use omnetpp_federate.Delivery.Flights.{arrival_of, hand_over}

-- What has left by one gate, in its order.
abbrev pub at_gate : {D : Type 0} → ℤ → List (Sending D) → List (Sending D)
at_gate i [] = []
at_gate i (x ∷ xs) = if eq_ℤ x.gate i then x ∷ at_gate i xs else at_gate i xs

at_gate-All :
    {D : Type 0} (P : Sending D → Type 0) (i : ℤ) (xs : List (Sending D))
    → All P xs
    → All P (at_gate i xs)
at_gate-All P i [] h = tt
at_gate-All P i (x ∷ xs) (p, h) = elim (Bool-cases (eq_ℤ x.gate i)) [
  | inl e ↦ rw e (p, at_gate-All P i xs h)
  | inr e ↦ rw e (at_gate-All P i xs h)
]

module _ {D : Type 0} (d : Doubles D) where
  -- INET's radios take the channels of a configuration.
  abbrev pub takes_channels : Payload D → Bool
  takes_channels (configuration cmd) = is_taken d cmd
  takes_channels _ = true

  handled :
      (draw : D) (x : Sending D) (a : App D)
      → IsAddressed x
      → takes_channels x.payload ≡ true
      → IsReady a
      → Ends (handle_message_when_up d draw a fed_in (arrival_of x.payload)) IsReady
  handled draw x a (to_configure cmd p n) taken h =
      subst (λ q. Ends (handle_message_when_up d draw a fed_in (arrival_of q)) IsReady) (sym p)
        (one_order d draw a (configure cmd) (subst (λ q. takes_channels q ≡ true) p taken) h)
  handled draw x a (to_send packet p n) taken h =
      subst (λ q. Ends (handle_message_when_up d draw a fed_in (arrival_of q)) IsReady) (sym p)
        (one_order d draw a (carry packet) tt h)

  hand_over-IsReady :
      (draws : ℕ → D) (xs : List (Sending D)) (a : App D)
      → All IsAddressed xs
      → All (λ (x : Sending D). takes_channels x.payload ≡ true) xs
      → IsReady a
      → Ends (hand_over d draws xs a) IsReady
  hand_over-IsReady draws [] a all takes h = h
  hand_over-IsReady draws (x ∷ xs) a (p, all) (taken, takes) h =
      >>=-Ends IsReady IsReady _ _ (handled (draws 0) x a p taken h)
        (λ b hb. hand_over-IsReady (λ n. draws (suc n)) xs b all takes hb)

module _ {D Q T F C : Type 0} (k : Kernel D T F) (ch : Channel D C) (junk : Junk D)
    (create : Creator D Q) where
  abbrev World : Type 0
  World = Manager D Q (Scheduler T F C)

  abbrev AllAddressed : World → Type 0
  AllAddressed s = All IsAddressed s.sent

  one_more :
      (s t : World)
      → AllAddressed s
      → (t.sent ≡ s.sent) ⊎ ((x : Sending D) × IsAddressed x × (t.sent ≡ s.sent ++ (x ∷ [])))
      → AllAddressed t
  one_more s t h (inl e) = subst (All IsAddressed) (sym e) h
  one_more s t h (inr (x, p, e)) =
      subst (All IsAddressed) (sym e) (All-append IsAddressed s.sent (x ∷ []) h (p, tt))

  Run-AllAddressed : {s t : World} → Run k ch junk create s t → AllAddressed s → AllAddressed t
  Run-AllAddressed stay h = h
  Run-AllAddressed {s = s} (go (managed {t = v} now fuel e u f taken_e for_it over) run) h =
      Run-AllAddressed run (
        one_more s v h (
          subst
            (λ o. Then o (λ t.
              (t.sent ≡ s.sent)
              ⊎ ((x : Sending D) × IsAddressed x × (t.sent ≡ s.sent ++ (x ∷ [])))))
            over (handle_message-IsAddressed k ch create e (record s { sched = u }))))
  Run-AllAddressed (go (elsewhere now fuel e u f taken_e not_for_it) run) h = Run-AllAddressed run h

  -- Over a whole run that starts before the manager has sent anything, whatever the ambassador sends: all
  -- that the manager sends is a configuration or a packet for the node of its gate, and an application
  -- that is ready handles all that leaves by one gate, in this order, without an error, and stays ready,
  -- if INET's radios take the channels that these configurations set.
  pub Run-hand_over :
      {s t : World} (d : Doubles D) (draws : ℕ → D) (i : ℤ) (a : App D)
      → Run k ch junk create s t
      → s.sent ≡ []
      → All (λ (x : Sending D). takes_channels d x.payload ≡ true) (at_gate i t.sent)
      → IsReady a
      → All IsAddressed t.sent × Ends (hand_over d draws (at_gate i t.sent) a) IsReady
  Run-hand_over {s = s} {t = t} d draws i a run silent takes h =
      let all = Run-AllAddressed run (subst (All IsAddressed) (sym silent) tt) in
      (
        all,
        hand_over-IsReady d draws (at_gate i t.sent) a (at_gate-All IsAddressed i t.sent all) takes
            h,
      )
