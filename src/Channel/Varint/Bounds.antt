-- ===== src/Channel/Varint/Bounds.antt =====
-- `readVarintPrefix` on any socket: the lengths that it can return.
use Prim.Native.Nat.{bit_and}
use omnetpp_federate.Prelude.{
  ℕ, zero, suc, ◌+◌, ◌*◌, ◌%◌, ◌^◌, ◌≤◌, ◌<◌, ◌≡◌, refl, ltb, ◌==◌, Bool-cases, inl, inr, arith,
  List, ◌∷◌, [],
}
use omnetpp_federate.Prelude.Bits.{low_seven, bit_or-add}
use omnetpp_federate.Channel.System.{Sockets, Received, bytes, failed}
use omnetpp_federate.Channel.Varint.{
  Prefix, size, invalid, unfinished, stored, varint_loop, read_varint_prefix,
}
use omnetpp_federate.Channel.Varint.Format.{fits_more}

-- Whatever `recv` stores are bytes.
abbrev pub HasBytes : {S : Type 0} → Sockets S → Type 0
HasBytes {S = S} os =
    (n : ℕ) (s : S) (b : ℕ) (bs : List ℕ) → (os.recv n s).0 ≡ bytes (b ∷ bs) → b < 256

stored_byte :
    (old : ℕ) (r : Received)
    → old < 256
    → ((b : ℕ) (bs : List ℕ) → r ≡ bytes (b ∷ bs) → b < 256)
    → stored old r < 256
stored_byte old (bytes (b ∷ bs)) h byte = byte b bs refl
stored_byte old (bytes []) h byte = h
stored_byte old failed h byte = h

four_groups : (n value : ℕ) → n ≤ 4 → value < 2 ^ (7 * n) → value < 2 ^ 28
four_groups zero value few h = omega arith
four_groups (suc zero) value few h = omega arith
four_groups (suc (suc zero)) value few h = omega arith
four_groups (suc (suc (suc zero))) value few h = omega arith
four_groups (suc (suc (suc (suc zero)))) value few h = omega arith
four_groups (suc (suc (suc (suc (suc n))))) value few h = absurd (omega arith)

-- A length that fits in 28 bits, or none.
abbrev pub IsShort : Prefix → Type 0
IsShort (size n) = n < 2 ^ 28
IsShort invalid = Unit {0}
IsShort unfinished = Unit {0}

module _ {S : Type 0} (os : Sockets S) (has : HasBytes os) where
  loop-IsShort :
      (fuel b value n : ℕ) (s : S)
      → n ≤ 4
      → value < 2 ^ (7 * n)
      → IsShort (varint_loop os fuel b value n s).0
  unfolding varint_loop
  loop-IsShort zero b value n s few fits = tt
  loop-IsShort (suc fuel) b value n s few fits = elim (Bool-cases (bit_and b 0x80 == 0)) [
    | inl e ↦ rw e (four_groups n value few fits)
    | inr e ↦ elim (Bool-cases (ltb 4 (n + 1))) [
      | inl q ↦ rw (e, q) tt
      | inr q ↦
          let b' : ℕ = stored 0 (os.recv 1 s).0 in
          let byte : b' < 256 = stored_byte 0 (os.recv 1 s).0 (omega arith) (has 1 s) in
          rw (e, q, low_seven b' byte, bit_or-add (7 * n) value (b' % 128) fits)
            (loop-IsShort fuel b' (value + b' % 128 * 2 ^ (7 * n)) (n + 1) (os.recv 1 s).1
              (ground arith) (fits_more n b' value fits))
    ]
  ]

  -- On a socket that stores bytes, whatever they are and whether or not a `recv` fails, a length that
  -- is returned fits in 28 bits.
  pub read_varint_prefix-IsShort :
      (junk : ℕ) (s : S) → junk < 256 → IsShort (read_varint_prefix os junk s).0
  unfolding read_varint_prefix
  read_varint_prefix-IsShort junk s h =
      let b : ℕ = stored junk (os.recv 1 s).0 in
      let byte : b < 256 = stored_byte junk (os.recv 1 s).0 h (has 1 s) in
      rw (low_seven b byte)
        (loop-IsShort 4 b (b % 128) 1 (os.recv 1 s).1 (omega arith) (omega arith))
