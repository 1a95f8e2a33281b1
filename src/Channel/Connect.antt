-- ===== src/Channel/Connect.antt =====
-- The set-up and the end of a channel: `prepareConnection`, `connect`, the constructor and the
-- destructor of src/util/ClientServerChannel.cc, over the socket calls of the operating system.
pub mod Descriptors
pub mod Tests
use Prim.Native.String.{String}
use omnetpp_federate.Prelude.{
  ℕ, ◌-◌, ◌%◌, ◌^◌, Bool, not, Option, none, some, List, [], ◌∷◌, ◌++◌, ◌==◌, if◌then◌else◌,
}
use omnetpp_federate.Prelude.Int.{ℤ, pos, negsuc, ltb_ℤ, leb_ℤ}
use omnetpp_federate.Channel.System.{Received, Sockets, Codec}
use omnetpp_federate.Channel.Interface.{Channel, client_server_channel}

-- The calls, on the state `W` of the system, with a socket by its descriptor. A port is in host
-- order: `htons` and `ntohs` are on the way out and in. `getsockname` may leave the address as it is.
pub record Network (W : Type 0) : Type 0 where
  pub inet_addr : String → ℕ
  pub gethostbyname : String → W → Option ℕ × W
  pub socket : W → ℤ × W
  pub set_reuse_address : ℤ → W → ℤ × W
  pub bind : ℤ → ℕ → ℕ → W → ℤ × W
  pub listen : ℤ → W → W
  pub getsockname : ℤ → W → Option ℕ × W
  pub accept : ℤ → W → ℤ × W
  pub set_no_delay : ℤ → W → W
  pub close : ℤ → W → W
  pub recv : ℤ → ℕ → W → Received × W
  pub poll : ℤ → W → ℤ × W
  pub send : ℤ → List ℕ → W → W

-- What is printed on `std::cerr`.
pub data Complaint : Type 0 where
  invalid_host no_socket no_reuse no_bind no_accept : Complaint

-- The object, with the system that it calls.
pub record ClientServerChannel (W : Type 0) : Type 0 where
  pub servsock : ℤ
  pub sock : ℤ
  pub world : W
  complaints : List Complaint

-- `INVALID_SOCKET`
abbrev pub invalid_socket : ℤ
invalid_socket = negsuc 0

module _ {W : Type 0} (net : Network W) where
  abbrev complain_if : Bool → Complaint → List Complaint → List Complaint
  complain_if b c cs = if b then cs ++ (c ∷ []) else cs

  -- The constructor. The log level that it sets is in `Log`.
  pub create : W → ClientServerChannel W
  create w = record { servsock = invalid_socket; sock = invalid_socket; world = w; complaints = [] }

  -- The address of the host: `inet_addr`, whose failure is -1 as an `unsigned int`, or else the name.
  pub resolve : String → W → Option ℕ × W
  resolve host w =
      let addr = net.inet_addr host in
      if not (addr == (2 ^ 32 - 1)) then (some addr, w) else net.gethostbyname host w

  -- Behind the address: no failure ends the method, and the port is that of the bound socket, or
  -- the wanted one if `getsockname` fails.
  pub listen_on : ℕ → ℕ → ClientServerChannel W → ℤ × ClientServerChannel W
  listen_on addr port c =
      let wanted = port % 2 ^ 16 in
      let (fd, w1) = net.socket c.world in
      let (reused, w2) = net.set_reuse_address fd w1 in
      let (bound, w3) = net.bind fd addr wanted w2 in
      let (name, w4) = net.getsockname fd (net.listen fd w3) in
      let actual : ℕ = elim name [ none ↦ wanted | some p ↦ p ] in
      (
        pos actual,
        record c {
          servsock = fd;
          world = w4;
          complaints = complain_if (ltb_ℤ bound (pos 0)) no_bind (
              complain_if (ltb_ℤ reused (pos 0)) no_reuse
                (complain_if (ltb_ℤ fd (pos 0)) no_socket c.complaints));
        },
      )

  pub prepare_connection : String → ℕ → ClientServerChannel W → ℤ × ClientServerChannel W
  unfolding resolve listen_on
  prepare_connection host port c =
      let (address, w) = resolve host c.world in
      let d : ClientServerChannel W = record c { world = w } in
      elim address [
        | none ↦ (pos 0, record d { complaints = d.complaints ++ (invalid_host ∷ []) })
        | some addr ↦ listen_on addr port d
      ]

  pub connect : ClientServerChannel W → ClientServerChannel W
  connect c =
      let (fd, w) = net.accept c.servsock c.world in
      record c {
        sock = fd;
        world = net.set_no_delay fd w;
        complaints = complain_if (ltb_ℤ fd (pos 0)) no_accept c.complaints;
      }

  pub close_sock : ClientServerChannel W → ClientServerChannel W
  close_sock c =
      if leb_ℤ (pos 0) c.sock
      then record c { sock = invalid_socket; world = net.close c.sock c.world }
      else c

  pub close_servsock : ClientServerChannel W → ClientServerChannel W
  close_servsock c =
      if leb_ℤ (pos 0) c.servsock
      then record c { servsock = invalid_socket; world = net.close c.servsock c.world }
      else c

  -- The destructor.
  pub destroy : ClientServerChannel W → ClientServerChannel W
  unfolding close_sock close_servsock
  destroy c = close_servsock (close_sock c)

  -- The readers and writers use `sock`.
  abbrev sockets_of : Sockets (ClientServerChannel W)
  sockets_of = record {
    recv = λ n c. let (r, w) = net.recv c.sock n c.world in (r, record c { world = w });
    poll = λ c. let (res, w) = net.poll c.sock c.world in (res, record c { world = w });
    send = λ bs c. record c { world = net.send c.sock bs c.world };
  }

  -- The whole class.
  abbrev socket_channel : {D : Type 0} → Codec D → ℕ → Channel D (ClientServerChannel W)
  socket_channel codec junk =
      client_server_channel prepare_connection connect destroy sockets_of codec junk
