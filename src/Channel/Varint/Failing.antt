-- ===== src/Channel/Varint/Failing.antt =====
-- `readVarintPrefix` on any socket: it always returns, and it takes no notice of a failed `recv`.
use Prim.Native.Nat.{bit_and, bit_or}
use omnetpp_federate.Prelude.{ℕ, zero, suc, ◌+◌, ◌*◌, ◌%◌, ◌^◌, ◌<◌, ◌≡◌, ◌≢◌, arith}
use omnetpp_federate.Prelude.Bits.{low_seven, top_one, bit_or-add}
use omnetpp_federate.Channel.System.{Sockets, failed}
use omnetpp_federate.Channel.Varint.{size, unfinished, stored, varint_loop, read_varint_prefix}

module _ {S : Type 0} (os : Sockets S) where
  varint_loop-ne-unfinished :
      (fuel b value n : ℕ) (s : S)
      → 0 < fuel
      → 4 < fuel + n
      → (varint_loop os fuel b value n s).0 ≢ unfinished
  unfolding varint_loop
  varint_loop-ne-unfinished zero b value n s pos enough = absurd (omega arith)
  varint_loop-ne-unfinished (suc fuel) b value n s pos enough =
      let b' : ℕ = stored 0 (os.recv 1 s).0 in
      ground (
        arith,
        varint_loop-ne-unfinished fuel b' (bit_or value (bit_and b' 0x7f * 2 ^ (7 * n))) (n + 1)
            (os.recv 1 s).1,
      )

  -- The loop ends on every socket, whatever `recv` does: four rounds are enough.
  pub read_varint_prefix-ne-unfinished :
      (junk : ℕ) (s : S) → (read_varint_prefix os junk s).0 ≢ unfinished
  unfolding read_varint_prefix
  read_varint_prefix-ne-unfinished junk s =
      varint_loop-ne-unfinished 4 (stored junk (os.recv 1 s).0)
        (bit_and (stored junk (os.recv 1 s).0) 127) 1 (os.recv 1 s).1 (omega arith) (omega arith)

  -- If the first `recv` fails and the next one too, as on a connection that has been reset, then a length
  -- is returned all the same, whatever byte the uninitialised variable holds: its low seven bits.
  pub read_varint_prefix-failed :
      (junk : ℕ) (s : S)
      → junk < 256
      → (os.recv 1 s).0 ≡ failed
      → (os.recv 1 (os.recv 1 s).1).0 ≡ failed
      → (read_varint_prefix os junk s).0 ≡ size (junk % 128)
  unfolding read_varint_prefix varint_loop
  read_varint_prefix-failed junk s h e f =
      rw (e, low_seven junk h, top_one junk h, f)
        (ground (arith, bit_or-add 7 (junk % 128) 0 (omega arith)))
