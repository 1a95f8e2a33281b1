-- ===== src/Scheduler/Simulation.antt =====
-- What the scheduler uses of OMNeT++: the simulation time and the future event set (FES).
use omnetpp_federate.Prelude.{◌≡◌, Bool, false, Option, some}
use omnetpp_federate.Prelude.Int.{ℤ}
use omnetpp_federate.Messages.{
  MosaicMobilityCmd, MosaicCommunicationCmd, MosaicConfigurationCmd, MosaicAppPacket,
}

-- A message by its name and its dynamic type, which the federate always sets together.
pub data Payload (D : Type 0) : Type 0 where
  mobility : MosaicMobilityCmd D → Payload D  -- "MosaicMobilityCmd"
  communication : MosaicCommunicationCmd → Payload D  -- "MosaicCommunicationCmd"
  configuration : MosaicConfigurationCmd D → Payload D  -- "MosaicConfigurationCmd"
  finish : Payload D  -- "MosaicFinishCmd"
  app_packet : MosaicAppPacket → Payload D
  other : Payload D  -- an event of the simulation itself

pub record Event (D T : Type 0) : Type 0 where
  pub payload : Payload D
  pub timestamp : T
  pub arrival_time : T
  pub arrival_module : ℤ
  pub is_stale : Bool

-- `T` is `simtime_t`, `F` is the FES. A null pointer is `none`.
pub record Kernel (D T F : Type 0) : Type 0 where
  pub zero_time : T
  pub of_ns : ℤ → T
  pub in_ns : T → ℤ
  pub sub : T → T → T
  pub remainder_ns : T → T
  pub gt : T → T → Bool
  pub is_empty : F → Bool
  pub peek_first : F → Option (Event D T)
  pub remove_first : F → Option (Event D T) × F
  pub insert : Event D T → F → F
  pub sort : F → F
  pub zero_double : D

module _ {D T F : Type 0} (k : Kernel D T F) where
  -- `t - t.remainderForUnit(SIMTIME_NS)`: whole nanoseconds.
  abbrev pub whole_ns : T → T
  whole_ns t = k.sub t (k.remainder_ns t)

  -- `putBackEvent`
  abbrev pub put_back : Event D T → F → F
  put_back e f = k.sort (k.insert e f)

-- What is documented of them, as far as the order of events depends on it.
pub record KernelLaws {D T F : Type 0} (k : Kernel D T F) : Type 0 where
  pub le-refl : (a : T) → k.gt a a ≡ false
  pub le-trans : (a b c : T) → k.gt a b ≡ false → k.gt b c ≡ false → k.gt a c ≡ false
  pub whole_ns-mono : (a b : T) → k.gt a b ≡ false → k.gt (whole_ns k a) (whole_ns k b) ≡ false
  -- a FES that is not empty has a first event, which is the one that is removed
  pub peek_of_filled : (f : F) → k.is_empty f ≡ false → (e : Event D T) × (k.peek_first f ≡ some e)
  pub remove_peeked :
      (f : F) (e : Event D T) → k.peek_first f ≡ some e → (k.remove_first f).0 ≡ some e
  -- an insertion leaves the FES filled, and its first event no later than before
  pub put_back-filled : (e : Event D T) (f : F) → k.is_empty (put_back k e f) ≡ false
  pub put_back-first :
      (e first later : Event D T) (f : F)
      → k.peek_first f ≡ some later
      → k.peek_first (put_back k e f) ≡ some first
      → k.gt first.arrival_time later.arrival_time ≡ false

-- No event of the FES is stale, as long as the modules that they are for are not deleted.
pub record LiveLaws {D T F : Type 0} (k : Kernel D T F) : Type 1 where
  pub Live : F → Type 0
  pub Live-put_back : (e : Event D T) (f : F) → e.is_stale ≡ false → Live f → Live (put_back k e f)
  pub Live-first : (e : Event D T) (f : F) → Live f → k.peek_first f ≡ some e → e.is_stale ≡ false
