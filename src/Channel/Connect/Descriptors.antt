-- ===== src/Channel/Connect/Descriptors.antt =====
-- The sockets that a channel of src/util/ClientServerChannel.cc opens and closes, and the port that it
-- reports.
use Prim.Native.String.{String}
use omnetpp_federate.Prelude.{
  ℕ, ◌≡◌, ◌∙◌, refl, sym, Bool, true, false, Option-cases, Bool-cases, inl, inr, ◌⊎◌, arith,
  if◌then◌else◌, ◌&&◌,
}
use omnetpp_federate.Prelude.Int.{ℤ, pos, eq_ℤ, eq_ℤ_iff, leb_ℤ}
use omnetpp_federate.Channel.Connect.{
  Network, ClientServerChannel, invalid_socket, create, resolve, listen_on, prepare_connection,
  connect, close_sock, close_servsock, destroy,
}

-- A descriptor is new, or the call has failed with -1 and nothing is open that was not before.
pub record IsOpened {W : Type 0} (is_open : W → ℤ → Bool) (w : W) (fd : ℤ) (w' : W) : Type 0 where
  pub result : (leb_ℤ (pos 0) fd ≡ true) ⊎ (fd ≡ invalid_socket)
  pub new : leb_ℤ (pos 0) fd ≡ true → is_open w fd ≡ false
  pub others :
      (i : ℤ)
      → is_open w' i
        ≡ (if leb_ℤ (pos 0) fd then (if eq_ℤ i fd then true else is_open w i) else is_open w i)

-- What is documented of the calls, as far as descriptors depend on it.
pub record DescriptorLaws {W : Type 0} (net : Network W) : Type 0 where
  pub is_open : W → ℤ → Bool
  pub socket-IsOpened : (w : W) → IsOpened is_open w (net.socket w).0 (net.socket w).1
  pub accept-IsOpened :
      (fd : ℤ) (w : W) → IsOpened is_open w (net.accept fd w).0 (net.accept fd w).1
  pub close-is_open :
      (fd : ℤ) (w : W) (i : ℤ)
      → is_open (net.close fd w) i ≡ (if eq_ℤ i fd then false else is_open w i)
  pub gethostbyname-is_open :
      (host : String) (w : W) (i : ℤ) → is_open (net.gethostbyname host w).1 i ≡ is_open w i
  pub set_reuse_address-is_open :
      (fd : ℤ) (w : W) (i : ℤ) → is_open (net.set_reuse_address fd w).1 i ≡ is_open w i
  pub bind-is_open :
      (fd : ℤ) (a p : ℕ) (w : W) (i : ℤ) → is_open (net.bind fd a p w).1 i ≡ is_open w i
  pub listen-is_open : (fd : ℤ) (w : W) (i : ℤ) → is_open (net.listen fd w) i ≡ is_open w i
  pub getsockname-is_open :
      (fd : ℤ) (w : W) (i : ℤ) → is_open (net.getsockname fd w).1 i ≡ is_open w i
  pub set_no_delay-is_open :
      (fd : ℤ) (w : W) (i : ℤ) → is_open (net.set_no_delay fd w) i ≡ is_open w i

module _ {W : Type 0} (net : Network W) (laws : DescriptorLaws net) where
  open laws use {is_open}

  resolve-is_open : (host : String) (w : W) (i : ℤ) → is_open (resolve net host w).1 i ≡ is_open w i
  unfolding resolve
  resolve-is_open host w i = ground (arith, laws.gethostbyname-is_open host w i)

  -- The object holds at most one more descriptor than the system had before it, its server socket.
  record IsPrepared (w : W) (c : ClientServerChannel W) : Type 0 where
    fresh : leb_ℤ (pos 0) c.servsock ≡ true → is_open w c.servsock ≡ false
    valid : (leb_ℤ (pos 0) c.servsock ≡ true) ⊎ (c.servsock ≡ invalid_socket)
    opened :
        (i : ℤ)
        → is_open c.world i
          ≡ (if leb_ℤ (pos 0) c.servsock && eq_ℤ i c.servsock then true else is_open w i)

  listen_on-IsPrepared :
      (addr port : ℕ) (w : W) (c : ClientServerChannel W)
      → ((i : ℤ) → is_open c.world i ≡ is_open w i)
      → IsPrepared w (listen_on net addr port c).1
  unfolding listen_on
  listen_on-IsPrepared addr port w c same =
      let o = laws.socket-IsOpened c.world in
      record {
        fresh = λ h. sym (same _) ∙ o.new h;
        valid = o.result;
        opened = λ i.
            laws.getsockname-is_open _ _ i
            ∙ laws.listen-is_open _ _ i
            ∙ laws.bind-is_open _ _ _ _ i
            ∙ laws.set_reuse_address-is_open _ _ i
            ∙ o.others i
            ∙ ground (arith, same i);
      }

  prepare_connection-IsPrepared :
      (host : String) (port : ℕ) (w : W)
      → IsPrepared w (prepare_connection net host port (create net w)).1
  unfolding prepare_connection create
  prepare_connection-IsPrepared host port w = elim (Option-cases (resolve net host w).0) [
    | inl e ↦
        rw (prepare_connection, e)
          (record {
            fresh = λ h. absurd cc;
            valid = inr refl;
            opened = λ i. resolve-is_open host w i;
          })
    | inr (addr, e) ↦
        rw (prepare_connection, e)
          (listen_on-IsPrepared addr port w
            (record (create net w) { world = (resolve net host w).1 })
            (λ i. resolve-is_open host w i))
  ]

  -- The connection's socket comes and goes.
  close_sock-connect :
      (c : ClientServerChannel W) (i : ℤ)
      → (is_open (close_sock net (connect net c)).world i ≡ is_open c.world i)
        × ((close_sock net (connect net c)).servsock ≡ c.servsock)
        × ((close_sock net (connect net c)).sock ≡ invalid_socket)
  unfolding close_sock connect
  close_sock-connect c i =
      let (fd, w) = net.accept c.servsock c.world in
      let o = laws.accept-IsOpened c.servsock c.world in
      elim o.result [
        | inl h ↦
            rw (close_sock, connect, h)
              (
                laws.close-is_open fd (net.set_no_delay fd w) i
                    ∙ ground (
                      arith,
                      laws.set_no_delay-is_open fd w i,
                      o.others i,
                      o.new h,
                      eq_ℤ_iff i fd,
                      h,
                    ),
                refl,
                refl,
              )
        | inr h ↦
            rw (close_sock, connect, h)
              (laws.set_no_delay-is_open _ _ i ∙ o.others i ∙ rw h refl, refl, refl)
      ]

  -- Closing the server socket of an object that differs from a prepared one in what is open nowhere.
  close_servsock-IsPrepared :
      (w : W) (d e : ClientServerChannel W)
      → IsPrepared w d
      → e.servsock ≡ d.servsock
      → ((i : ℤ) → is_open e.world i ≡ is_open d.world i)
      → (i : ℤ)
      → (is_open (close_servsock net e).world i ≡ is_open w i)
        × ((close_servsock net e).servsock ≡ invalid_socket)
  unfolding close_servsock
  close_servsock-IsPrepared w d e prepared same alike i = elim prepared.valid [
    | inl h ↦
        rw (close_servsock, same, h)
          (
            laws.close-is_open d.servsock e.world i
                ∙ ground
                    (arith, alike i, prepared.opened i, prepared.fresh h, eq_ℤ_iff i d.servsock, h),
            refl,
          )
    | inr h ↦ rw (close_servsock, same, h) (alike i ∙ prepared.opened i ∙ rw h refl, refl)
  ]

  close_servsock-sock : (e : ClientServerChannel W) → (close_servsock net e).sock ≡ e.sock
  unfolding close_servsock
  close_servsock-sock e = elim (Bool-cases (leb_ℤ (pos 0) e.servsock)) [
    | inl h ↦ rw (close_servsock, h) refl
    | inr h ↦ rw (close_servsock, h) refl
  ]

  -- The life of a channel leaves no socket open, if the calls open and close the descriptors that
  -- they are documented to: after the constructor, `prepareConnection`, `connect` and the
  -- destructor the same descriptors are open as before, whichever of the calls fail, and the object
  -- holds none.
  pub destroy-is_open :
      (host : String) (port : ℕ) (w : W) (i : ℤ)
      → let c = destroy net (connect net (prepare_connection net host port (create net w)).1) in
        (is_open c.world i ≡ is_open w i)
        × (c.servsock ≡ invalid_socket)
        × (c.sock ≡ invalid_socket)
  unfolding destroy close_servsock
  destroy-is_open host port w i =
      let d = (prepare_connection net host port (create net w)).1 in
      let e = close_sock net (connect net d) in
      let (world, servsock, sock) = close_sock-connect d i in
      let (closed, gone) =
        close_servsock-IsPrepared w d e (prepare_connection-IsPrepared host port w) servsock
          (λ j. (close_sock-connect d j).0) i in
      (closed, gone, close_servsock-sock e ∙ sock)
