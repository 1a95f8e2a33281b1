-- ===== src/Channel/Varint.antt =====
-- `readVarintPrefix` of src/util/ClientServerChannel.cc: a length in groups of seven bits. A `char`
-- is its eight bits, a number below 256; `& 0x7f` and `& 0x80` do not depend on its sign.
pub mod Format
pub mod Failing
pub mod Bounds
pub mod Sent
use Prim.Native.Nat.{bit_and, bit_or}
use omnetpp_federate.Prelude.{ℕ, zero, suc, ◌+◌, ◌*◌, ◌^◌, [], ◌∷◌, ltb, ◌==◌, if◌then◌else◌}
use omnetpp_federate.Channel.System.{Sockets, Received, bytes, failed}

-- The returned pointer: a size, or null. `unfinished` is no C++ value: the fuel is used up.
pub data Prefix : Type 0 where
  size : ℕ → Prefix
  invalid : Prefix
  unfinished : Prefix

-- What the variable holds after `recv` of one byte, if it held `old` before.
abbrev pub stored : ℕ → Received → ℕ
stored old (bytes (b ∷ _)) = b
stored old (bytes []) = old
stored old failed = old

module _ {S : Type 0} (os : Sockets S) where
  -- `n` bytes are read, the last one is `b`. `count < 0` is false, since `count` is unsigned.
  unfoldable pub varint_loop : ℕ → ℕ → ℕ → ℕ → S → Prefix × S
  varint_loop zero b value n s = (unfinished, s)
  varint_loop (suc fuel) b value n s =
      let (r, s') = os.recv 1 s in
      let b' = stored 0 r in
      let more = varint_loop fuel b' (bit_or value (bit_and b' 0x7f * 2 ^ (7 * n))) (n + 1) s' in
      if bit_and b 0x80 == 0
      then (size value, s)
      else (if ltb 4 (n + 1) then (invalid, s') else more)

  -- `junk` is what the uninitialised `current_byte` holds. Each round reads a byte, and the fifth
  -- byte ends the loop.
  unfoldable pub read_varint_prefix : ℕ → S → Prefix × S
  unfolding varint_loop
  read_varint_prefix junk s =
      let (r, s') = os.recv 1 s in let b = stored junk r in varint_loop 4 b (bit_and b 0x7f) 1 s'
