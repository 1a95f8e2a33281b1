-- ===== src/Channel/Connect/Tests.antt =====
-- A system of which the open descriptors are known, and the theorems on connections there.
use omnetpp_federate.Prelude.{
  ℕ, suc, ◌+◌, ◌<◌, ◌≡◌, refl, Bool, false, ◌||◌, some, none, List, [], ◌∷◌, arith, inl,
  if◌then◌else◌,
}
use omnetpp_federate.Prelude.Int.{ℤ, pos, eq_ℤ, eq_ℤ_iff}
use omnetpp_federate.Channel.System.{bytes}
use omnetpp_federate.Channel.Connect.{
  Network, invalid_socket, create, prepare_connection, connect, destroy,
}
use omnetpp_federate.Channel.Connect.Descriptors.{DescriptorLaws, IsOpened, destroy-is_open}

abbrev has : List ℕ → ℤ → Bool
has [] i = false
has (n ∷ l) i = eq_ℤ i (pos n) || has l i

without : ℤ → List ℕ → List ℕ
without fd [] = []
without fd (n ∷ l) = let rest = without fd l in if eq_ℤ fd (pos n) then rest else n ∷ rest

sum : List ℕ → ℕ
sum [] = 0
sum (n ∷ l) = n + sum l

-- A number above every descriptor.
abbrev fresh : List ℕ → ℕ
fresh l = suc (sum l)

abbrev network : Network (List ℕ)
network = record {
  inet_addr = λ host. 2130706433;
  gethostbyname = λ host w. (none, w);
  socket = λ w. (pos (fresh w), fresh w ∷ w);
  set_reuse_address = λ fd w. (pos 0, w);
  bind = λ fd a p w. (pos 0, w);
  listen = λ fd w. w;
  getsockname = λ fd w. (some 4001, w);
  accept = λ fd w. (pos (fresh w), fresh w ∷ w);
  set_no_delay = λ fd w. w;
  close = without;
  recv = λ fd n w. (bytes [], w);
  poll = λ fd w. (pos 0, w);
  send = λ fd bs w. w;
}

has-fresh : (l : List ℕ) (n : ℕ) → sum l < n → has l (pos n) ≡ false
unfolding sum
has-fresh [] n h = refl
has-fresh (m ∷ l) n h = ground (arith, has-fresh l n (omega arith))

has-without :
    (fd : ℤ) (l : List ℕ) (i : ℤ) → has (without fd l) i ≡ (if eq_ℤ i fd then false else has l i)
unfolding without
has-without fd [] i = ground arith
has-without fd (n ∷ l) i =
    ground (arith, has-without fd l i, eq_ℤ_iff i fd, eq_ℤ_iff fd (pos n), eq_ℤ_iff i (pos n))

opened : (w : List ℕ) → IsOpened has w (pos (fresh w)) (fresh w ∷ w)
opened w = record {
  result = inl (ground arith);
  new = λ h. has-fresh w (fresh w) (omega arith);
  others = λ i. ground arith;
}

network-DescriptorLaws : DescriptorLaws network
network-DescriptorLaws = record {
  is_open = has;
  socket-IsOpened = opened;
  accept-IsOpened = λ fd w. opened w;
  close-is_open = has-without;
  gethostbyname-is_open = λ host w i. refl;
  set_reuse_address-is_open = λ fd w i. refl;
  bind-is_open = λ fd a p w i. refl;
  listen-is_open = λ fd w i. refl;
  getsockname-is_open = λ fd w i. refl;
  set_no_delay-is_open = λ fd w i. refl;
}

destroy-is_open_example :
    let c =
      destroy network (
        connect network
          (prepare_connection network "localhost" 4001 (create network (7 ∷ []))).1) in
    (has c.world (pos 8) ≡ has (7 ∷ []) (pos 8))
    × (c.servsock ≡ invalid_socket)
    × (c.sock ≡ invalid_socket)
unfolding network-DescriptorLaws
destroy-is_open_example =
    destroy-is_open network network-DescriptorLaws "localhost" 4001 (7 ∷ []) (pos 8)
