-- ===== src/Channel/Varint/Sent.antt =====
-- `readVarintPrefix` reads only: nothing is sent on the socket.
use Prim.Native.Nat.{bit_and, bit_or}
use omnetpp_federate.Prelude.{ℕ, zero, suc, ◌+◌, ◌*◌, ◌^◌, ◌≡◌, ◌∙◌, refl, arith}
use omnetpp_federate.Channel.System.{Sockets, StreamLaws}
use omnetpp_federate.Channel.Varint.{stored, varint_loop, read_varint_prefix}

module _ {S : Type 0} (os : Sockets S) (stream : StreamLaws os) where
  open stream use {sent}

  loop-sent : (fuel b value n : ℕ) (s : S) → sent (varint_loop os fuel b value n s).1 ≡ sent s
  unfolding varint_loop
  loop-sent zero b value n s = refl
  loop-sent (suc fuel) b value n s =
      let b' : ℕ = stored 0 (os.recv 1 s).0 in
      ground (
        arith,
        stream.recv-sent 1 s,
        loop-sent fuel b' (bit_or value (bit_and b' 0x7f * 2 ^ (7 * n))) (n + 1) (os.recv 1 s).1,
      )

  pub read_varint_prefix-sent : (junk : ℕ) (s : S) → sent (read_varint_prefix os junk s).1 ≡ sent s
  unfolding read_varint_prefix
  read_varint_prefix-sent junk s =
      loop-sent 4 (stored junk (os.recv 1 s).0) (bit_and (stored junk (os.recv 1 s).0) 127) 1
        (os.recv 1 s).1
      ∙ stream.recv-sent 1 s
