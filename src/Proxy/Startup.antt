-- ===== src/Proxy/Startup.antt =====
-- `initialize` of src/node/MosaicProxyApp.cc: when a node becomes operational, and what a started
-- application can handle.
use Prim.Native.String.{String}
use omnetpp_federate.Prelude.{
  ◌≡◌, ◌∙◌, true, false, ◌⊎◌, inl, inr, refl, Option, none, some, Option-cases, List, [], ◌∷◌,
  arith, if◌then◌else◌, not, ◌&&◌, All,
}
use text.Mathlib.TextEquality.{eq_iff}
use omnetpp_federate.Prelude.Outcome.{Outcome, done, Ends, Ends-mono, ◌>>=◌, >>=-Ends}
use omnetpp_federate.Messages.{MosaicConfigurationCmd, MosaicAppPacket}
use omnetpp_federate.Proxy.Radios.{
  Doubles, App, Radio, NetworkInterface, off, operating, not_operating, connect_radios,
}
use omnetpp_federate.Proxy.{
  Environment, Arrival, configuration, app_packet, fed_in, has_name, find_interfaces, find_radios,
  need_interfaces, initialize, handle_message_when_up,
}
use omnetpp_federate.Proxy.Branches.{IsReady, is_taken}
use omnetpp_federate.Proxy.Settings.{handle_configuration-IsReady}
use omnetpp_federate.Proxy.Sending.{app_packet-Serves}

module _ {D : Type 0} where
  -- The last interface of that name which is no loopback.
  last_named : String → List (NetworkInterface D) → Option (NetworkInterface D)
  last_named name [] = none
  last_named name (i ∷ is) = elim (last_named name is) [
    | some j ↦ some j
    | none ↦ if not i.is_loopback && has_name name i then some i else none
  ]

  or_else : Option (NetworkInterface D) → Option (NetworkInterface D) → Option (NetworkInterface D)
  or_else (some i) o = some i
  or_else none o = o

  or_else-none : (o : Option (NetworkInterface D)) → or_else o none ≡ o
  unfolding or_else
  or_else-none none = refl
  or_else-none (some i) = refl

  -- No interface has both names.
  one_name : (i : NetworkInterface D) → has_name "wlan0" i ≡ true → has_name "wlan1" i ≡ false
  one_name i e = rw ((eq_iff i.full_name "wlan0").0 e)

  find_interfaces_lem :
      (is : List (NetworkInterface D)) (a : App D)
      → find_interfaces is a ≡ record a {
        ie0 = or_else (last_named "wlan0" is) a.ie0;
        ie1 = or_else (last_named "wlan1" is) a.ie1;
      }
  unfolding find_interfaces last_named or_else
  find_interfaces_lem [] a = refl
  find_interfaces_lem (i ∷ is) a = find_interfaces_lem is _ ∙ ground (arith, one_name i)

  -- Both interfaces are in the table, and each has a radio of the right kind.
  pub record IsWired (is : List (NetworkInterface D)) : Type 0 where
    pub i0 : NetworkInterface D
    pub i1 : NetworkInterface D
    pub r0 : Radio D
    pub r1 : Radio D
    found0 : last_named "wlan0" is ≡ some i0
    found1 : last_named "wlan1" is ≡ some i1
    pub radio0 : i0.radio ≡ some r0
    pub radio1 : i1.radio ≡ some r1

  pub record IsFresh (a : App D) : Type 0 where
    pub no_interface0 : a.ie0 ≡ none
    pub no_interface1 : a.ie1 ≡ none
    pub no_radios : a.num_radios ≡ 0

  abbrev pub Started : List (NetworkInterface D) → App D → Type 0
  Started is b =
      (IsWired is × (b.state ≡ operating) × IsReady b × (b.num_radios ≡ 0))
      ⊎ (¬ IsWired is × (b.state ≡ not_operating) × (b.num_radios ≡ 0))

  module _ (is : List (NetworkInterface D)) (a : App D) (dark : a.num_radios ≡ 0) where
    -- With both interfaces it depends on their radios.
    with_radios :
        (i0 i1 : NetworkInterface D)
        → last_named "wlan0" is ≡ some i0
        → last_named "wlan1" is ≡ some i1
        → a.ie0 ≡ some i0
        → a.ie1 ≡ some i1
        → (q0 q1 : Option (Radio D)) → i0.radio ≡ q0
        → i1.radio ≡ q1
        → Ends (find_radios a i0 i1) (Started is)
    unfolding find_radios connect_radios
    with_radios i0 i1 f0 f1 w0 w1 none q1 e0 e1 =
        rw e0 (inr (λ w. ground (arith, w.found0, w.radio0), refl, dark))
    with_radios i0 i1 f0 f1 w0 w1 (some r0) none e0 e1 =
        rw (e0, e1) (inr (λ w. ground (arith, w.found1, w.radio1), refl, dark))
    with_radios i0 i1 f0 f1 w0 w1 (some r0) (some r1) e0 e1 =
        rw (e0, e1)
          (inl (
            record {
              i0 = i0;
              i1 = i1;
              r0 = r0;
              r1 = r1;
              found0 = f0;
              found1 = f1;
              radio0 = e0;
              radio1 = e1;
            },
            refl,
            record {
              r0 = record r0 { mode = off };
              r1 = record r1 { mode = off };
              i0 = i0;
              i1 = i1;
              radios = ground arith;
              wired0 = w0;
              wired1 = w1;
            },
            refl,
          ))

    need_both :
        {i0 i1 : NetworkInterface D}
        → a.ie0 ≡ some i0
        → a.ie1 ≡ some i1
        → need_interfaces a ≡ find_radios a i0 i1
    unfolding need_interfaces
    need_both w0 w1 = ground arith

    with_interfaces :
        (o0 o1 : Option (NetworkInterface D))
        → last_named "wlan0" is ≡ o0
        → last_named "wlan1" is ≡ o1
        → a.ie0 ≡ o0
        → a.ie1 ≡ o1
        → Ends (need_interfaces a) (Started is)
    unfolding need_interfaces
    with_interfaces none o1 f0 f1 w0 w1 = rw w0 (inr (λ w. ground (arith, w.found0), refl, dark))
    with_interfaces (some i0) none f0 f1 w0 w1 =
        rw (w0, w1) (inr (λ w. ground (arith, w.found1), refl, dark))
    with_interfaces (some i0) (some i1) f0 f1 w0 w1 =
        rw (need_both w0 w1) (with_radios i0 i1 f0 f1 w0 w1 i0.radio i1.radio refl refl)

  pub table : Environment D → List (NetworkInterface D)
  table env = elim env.interfaces [ none ↦ [] | some is ↦ is ]

  -- Stage 5 on a fresh application always returns. It becomes operational, with both radios off, if
  -- the interfaces "wlan0" and "wlan1" are there with their radios; else it does not.
  pub initialize-Started :
      (env : Environment D) (a : App D)
      → IsFresh a
      → Ends (initialize env a 5) (Started (table env))
  unfolding initialize table last_named
  initialize-Started env a f = elim (Option-cases env.interfaces) [
    | inl e ↦
        rw e (with_interfaces [] a f.no_radios none none refl refl f.no_interface0 f.no_interface1)
    | inr (is, e) ↦
        rw (e, find_interfaces_lem is a, f.no_interface0, f.no_interface1)
          (with_interfaces is
            (record a {
              ie0 = or_else (last_named "wlan0" is) none;
              ie1 = or_else (last_named "wlan1" is) none;
            })
            f.no_radios (last_named "wlan0" is) (last_named "wlan1" is) refl refl (or_else-none _)
            (or_else-none _))
  ]

-- What the scenario manager sends to an application: configurations and packets.
pub data Order (D : Type 0) : Type 0 where
  configure : MosaicConfigurationCmd D → Order D
  carry : MosaicAppPacket → Order D

module _ {D : Type 0} (d : Doubles D) where
  abbrev arrival : Order D → Arrival D
  arrival (configure cmd) = configuration cmd
  arrival (carry p) = app_packet p

  -- The handlers in turn, each with its random number.
  serve : App D → List (D × Order D) → Outcome (App D)
  serve a [] = done a
  serve a ((draw, o) ∷ os) = do b ← handle_message_when_up d draw a fed_in (arrival o); serve b os

  carry-IsReady :
      (draw : D) (a : App D) (p : MosaicAppPacket)
      → IsReady a
      → Ends (handle_message_when_up d draw a fed_in (app_packet p)) IsReady
  carry-IsReady draw a p h = elim (app_packet-Serves d draw a p h) [
    | inl (i, v, e) ↦ rw e (record {
      r0 = h.r0;
      r1 = h.r1;
      i0 = h.i0;
      i1 = h.i1;
      radios = ground arith;
      wired0 = h.wired0;
      wired1 = h.wired1;
    })
    | inr (never, e) ↦ rw e h
  ]

  -- INET takes the channels of a configuration.
  abbrev pub IsTaken : Order D → Type 0
  IsTaken (configure cmd) = is_taken d cmd ≡ true
  IsTaken (carry p) = Unit {0}

  pub one_order :
      (draw : D) (a : App D) (o : Order D)
      → IsTaken o
      → IsReady a
      → Ends (handle_message_when_up d draw a fed_in (arrival o)) IsReady
  unfolding handle_message_when_up
  one_order draw a (configure cmd) taken h = elim (handle_configuration-IsReady d a cmd h) [
    | inl (yes_taken, ends) ↦ Ends-mono _ IsReady _ ends (λ b hb. hb.0)
    | inr (refused, b, stopped) ↦ absurd cc
  ]
  one_order draw a (carry p) taken h = carry-IsReady draw a p h

  -- A ready application handles whatever the scenario manager sends, in any order, and stays ready, if
  -- INET takes the channels.
  serve-IsReady :
      (a : App D) (os : List (D × Order D))
      → All (λ x. IsTaken x.1) os
      → IsReady a
      → Ends (serve a os) IsReady
  unfolding serve
  serve-IsReady a [] all h = h
  serve-IsReady a ((draw, o) ∷ os) (taken, all) h =
      >>=-Ends IsReady IsReady _ (λ b. serve b os) (one_order draw a o taken h)
        (λ b hb. serve-IsReady b os all hb)
