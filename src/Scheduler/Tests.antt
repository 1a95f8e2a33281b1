-- ===== src/Scheduler/Tests.antt =====
-- The scheduler on a concrete kernel and scripted channels, and its theorems there.
pub mod Grants
use omnetpp_federate.Prelude.{
  ℕ, ◌-◌, ◌*◌, ◌%◌, ◌≡◌, refl, Bool, true, false, Option, none, some, List, [], ◌∷◌, ◌++◌, arith,
  ltb, if◌then◌else◌, Bool-cases, inl, inr,
}
use omnetpp_federate.Prelude.Int.{ℤ, pos, pos_part}
use omnetpp_federate.Channel.Types.{
  Cmd, cmd_undef, cmd_shut_down, cmd_advance_time, cmd_next_event, cmd_end, no_radio,
  single_channel, cch, update_unnamed, RadioConfig,
}
use omnetpp_federate.Channel.Interface.{Channel}
use omnetpp_federate.Scheduler.Simulation.{Kernel, KernelLaws, LiveLaws, Event, other, finish}
use omnetpp_federate.Scheduler.{Scheduler, Junk}

-- Simulation time in picoseconds; the FES is a list in the order of the arrival times.
abbrev pub Fes : Type 0
Fes = List (Event ℕ ℕ)

pub place : Event ℕ ℕ → Fes → Fes
place e [] = e ∷ []
place e (x ∷ f) =
    let rest = place e f in if ltb e.arrival_time x.arrival_time then e ∷ x ∷ f else x ∷ rest

abbrev none_left : Fes → Bool
none_left [] = true
none_left (e ∷ f) = false

abbrev first_of : Fes → Option (Event ℕ ℕ)
first_of [] = none
first_of (e ∷ f) = some e

abbrev without_first : Fes → Fes
without_first [] = []
without_first (e ∷ f) = f

abbrev pub kernel : Kernel ℕ ℕ Fes
kernel = record {
  zero_time = 0;
  of_ns = λ z. pos_part z * 1000;
  in_ns = λ t. pos t;
  sub = λ a b. a - b;
  remainder_ns = λ t. t % 1000;
  gt = λ a b. ltb b a;
  is_empty = none_left;
  peek_first = first_of;
  remove_first = λ f. (first_of f, without_first f);
  insert = place;
  sort = λ f. f;
  zero_double = 0;
}

filled-first : (f : Fes) → none_left f ≡ false → (e : Event ℕ ℕ) × (first_of f ≡ some e)
filled-first [] h = absurd cc
filled-first (e ∷ f) h = (e, refl)

place-filled : (e : Event ℕ ℕ) (f : Fes) → none_left (place e f) ≡ false
unfolding place
place-filled e [] = refl
place-filled e (x ∷ f) = ground arith

place-first :
    (e first later : Event ℕ ℕ) (f : Fes)
    → first_of f ≡ some later
    → first_of (place e f) ≡ some first
    → ltb later.arrival_time first.arrival_time ≡ false
unfolding place
place-first e first later [] p q = absurd cc
place-first e first later (x ∷ f) p q = ground arith

pub kernel-KernelLaws : KernelLaws kernel
kernel-KernelLaws = record {
  le-refl = λ a. ground arith;
  le-trans = λ a b c h g. ground arith;
  whole_ns-mono = λ a b h. ground arith;
  peek_of_filled = filled-first;
  remove_peeked = λ f e p. p;
  put_back-filled = place-filled;
  put_back-first = place-first;
}

abbrev AllLive : Fes → Type 0
AllLive [] = Unit
AllLive (e ∷ f) = (e.is_stale ≡ false) × AllLive f

pub AllLive-place : (e : Event ℕ ℕ) (f : Fes) → e.is_stale ≡ false → AllLive f → AllLive (place e f)
unfolding place
AllLive-place e [] h l = (h, tt)
AllLive-place e (x ∷ f) h l = elim (Bool-cases (ltb e.arrival_time x.arrival_time)) [
  | inl lt ↦ rw lt (h, l)
  | inr ge ↦ rw ge (l.0, AllLive-place e f h l.1)
]

pub AllLive-first : (e : Event ℕ ℕ) (f : Fes) → AllLive f → first_of f ≡ some e → e.is_stale ≡ false
AllLive-first e [] l p = absurd cc
AllLive-first e (x ∷ f) l p = ground (arith, l.0)

abbrev pub kernel-LiveLaws : LiveLaws kernel
kernel-LiveLaws = record {
  Live = AllLive;
  Live-put_back = AllLive-place;
  Live-first = AllLive-first;
}

-- A channel that holds the commands and times to be read, and those written.
pub data Item : Type 0 where
  a_cmd : Cmd → Item
  a_time : ℤ → Item

abbrev take_cmd : List Item → Cmd × List Item
take_cmd (a_cmd c ∷ s) = (c, s)
take_cmd s = (cmd_undef, s)

abbrev take_time : List Item → ℤ × List Item
take_time (a_time t ∷ s) = (t, s)
take_time s = (pos 0, s)

abbrev pub scripted : Channel ℕ (List Item)
scripted = record {
  prepare_connection = λ host port s. (pos 0, s);
  connect = λ s. s;
  destroy = λ s. s;
  read_command = take_cmd;
  read_init = λ m s. (pos 0, m, s);
  read_update_node = λ m s. (pos 0, m, s);
  read_configuration_message = λ m s. (pos 0, m, s);
  read_send_message = λ m s. (pos 0, m, s);
  read_time_message = take_time;
  write_command = λ c s. s ++ (a_cmd c ∷ []);
  write_port = λ p s. s;
  write_time_message = λ t s. s ++ (a_time t ∷ []);
  write_receive_message = λ t n m c r s. s ++ (a_time t ∷ []);
}

abbrev plain_radio : RadioConfig ℕ
plain_radio = record {
  turned_on = false;
  ip_address = 0;
  subnet = 0;
  tx_power = 0;
  channelmode = single_channel;
  primary_channel = cch;
  secondary_channel = cch;
}

abbrev pub junk : Junk ℕ
junk = record {
  init = record { start_time = pos 0; end_time = pos 0 };
  update = record { type = update_unnamed; time = pos 0; properties = [] };
  send = record {
    time = pos 0;
    node_id = pos 0;
    channel_id = cch;
    message_id = pos 0;
    length = pos 0;
    topo_address = record { ip_address = 0; ttl = pos 0 };
  };
  config = record {
    time = pos 0;
    msg_id = pos 0;
    node_id = pos 0;
    num_radios = no_radio;
    primary_radio = plain_radio;
    secondary_radio = plain_radio;
  };
}

abbrev pub beacon : Event ℕ ℕ
beacon = record {
  payload = other;
  timestamp = 5000;
  arrival_time = 5000;
  arrival_module = pos 7;
  is_stale = false;
}

-- One event at 5 ns, granted up to 1 ns; the ambassador shuts down, and then it grants 5 ns.
abbrev pub early : Scheduler ℕ Fes (List Item)
early = record {
  ambassador_federate = a_cmd cmd_shut_down ∷ a_cmd cmd_advance_time ∷ a_time (pos 5) ∷ [];
  federate_ambassador = [];
  start_time = 0;
  stop_time = 9000;
  current_max_sim_time = 1000;
  time_advancing = true;
  fes = beacon ∷ [];
  mgmt = some (pos 1);
  run_ended = false;
}

abbrev shut : Event ℕ ℕ
shut = record {
  payload = finish;
  timestamp = 1000;
  arrival_time = 1000;
  arrival_module = pos 1;
  is_stale = false;
}

abbrev late : Scheduler ℕ Fes (List Item)
late = record early {
  ambassador_federate = [];
  federate_ambassador =
      a_cmd cmd_next_event ∷ a_time (pos 5000) ∷ a_cmd cmd_end ∷ a_time (pos 1000) ∷ [];
  current_max_sim_time = 5000;
  fes = shut ∷ beacon ∷ [];
}
