-- ===== src/Channel/Varint/Format.antt =====
-- `readVarintPrefix` on a stream, against protobuf's format: seven bits a byte, the lowest group
-- first, and the top bit set on every byte but the last.
use omnetpp_federate.Prelude.{
  ℕ, zero, suc, ◌+◌, ◌-◌, ◌*◌, ◌%◌, ◌^◌, ◌≤◌, ◌<◌, ◌≡◌, ◌∙◌, refl, ap, List, [], ◌∷◌, ◌++◌, length,
  take, drop, arith,
}
use native.Mathlib.Nat.{pow-suc}
use native.Mathlib.Decide.{dec_lt}
use native.Mathlib.Numerals.{towards_suc}
use omnetpp_federate.Prelude.Bits.{low_seven, top_one, bit_or-add}
use omnetpp_federate.Channel.System.{Sockets, StreamLaws, bytes}
use omnetpp_federate.Channel.Varint.{size, invalid, varint_loop, read_varint_prefix}

abbrev pub IsVarint : List ℕ → Type 0
IsVarint [] = ⊥
IsVarint (b ∷ []) = b < 128
IsVarint (b ∷ c ∷ bs) = (128 ≤ b) × (b < 256) × IsVarint (c ∷ bs)

-- The number that the groups stand for.
abbrev pub value_of : List ℕ → ℕ
value_of [] = 0
value_of (b ∷ bs) = b % 128 + 128 * value_of bs

head-byte : (c : ℕ) (bs : List ℕ) → IsVarint (c ∷ bs) → c < 256
head-byte c [] v = omega arith
head-byte c (d ∷ bs) v = v.1

seven_more : (n : ℕ) → 2 ^ (7 * (n + 1)) ≡ 128 * 2 ^ (7 * n)
seven_more n = rw (seven_add n) (simp towards_suc (omega arith))
  where
    seven_add : (n : ℕ) → 7 * (n + 1) ≡ 7 * n + 7
    seven_add n = omega arith

pub fits_more :
    (n c value : ℕ) → value < 2 ^ (7 * n) → value + c % 128 * 2 ^ (7 * n) < 2 ^ (7 * (n + 1))
fits_more n c value h = rw seven_more (grind arith)

regroup :
    (n c value high : ℕ)
    → value + c % 128 * 2 ^ (7 * n) + high * 2 ^ (7 * (n + 1))
      ≡ value + (c % 128 + 128 * high) * 2 ^ (7 * n)
regroup n c value high = rw seven_more (omega arith)

drop_less : (n c : ℕ) (bs : List ℕ) → n < 4 → drop (5 - (n + 1)) bs ≡ drop (5 - n) (c ∷ bs)
drop_less zero c bs h = refl
drop_less (suc zero) c bs h = refl
drop_less (suc (suc zero)) c bs h = refl
drop_less (suc (suc (suc zero))) c bs h = refl
drop_less (suc (suc (suc (suc n)))) c bs h = absurd (omega arith)

module _ {S : Type 0} (os : Sockets S) (laws : StreamLaws os) where
  open laws use {pending}

  -- One byte that is there.
  recv_byte :
      (s : S) (b : ℕ) (bs : List ℕ)
      → pending s ≡ b ∷ bs
      → ((os.recv 1 s).0 ≡ bytes (b ∷ [])) × (pending (os.recv 1 s).1 ≡ bs)
  recv_byte s b bs e = (
    laws.recv-bytes 1 s (omega (arith, ap length e)) ∙ ap (λ (l : List ℕ). bytes (take 1 l)) e,
    laws.recv-pending 1 s (omega (arith, ap length e)) ∙ ap (λ (l : List ℕ). drop 1 l) e,
  )

  last_round :
      (fuel b value n : ℕ) (s : S)
      → b < 128
      → varint_loop os (suc fuel) b value n s ≡ (size value, s)
  unfolding varint_loop
  last_round fuel b value n s h = ground (arith, top_one b)

  inner_round :
      (fuel b c value n : ℕ) (s : S) (bs : List ℕ)
      → 128 ≤ b
      → b < 256
      → c < 256
      → n < 4
      → value < 2 ^ (7 * n)
      → pending s ≡ c ∷ bs
      → varint_loop os (suc fuel) b value n s
        ≡ varint_loop os fuel c (value + c % 128 * 2 ^ (7 * n)) (n + 1) (os.recv 1 s).1
  unfolding varint_loop
  inner_round fuel b c value n s bs top byte byte' few fits e =
      rw ((recv_byte s c bs e).0, low_seven c byte', bit_or-add (7 * n) value (c % 128) fits)
        (ground (arith, top_one b))

  loop-size :
      (bs : List ℕ) (fuel b value n : ℕ) (s : S) (rest : List ℕ)
      → IsVarint (b ∷ bs)
      → pending s ≡ bs ++ rest
      → value < 2 ^ (7 * n)
      → length bs + n ≤ 4
      → length bs < fuel
      → ((varint_loop os fuel b value n s).0 ≡ size (value + value_of bs * 2 ^ (7 * n)))
        × (pending (varint_loop os fuel b value n s).1 ≡ rest)
  loop-size bs zero b value n s rest v e fits few enough = absurd (omega arith)
  loop-size [] (suc fuel) b value n s rest v e fits few enough =
      rw (last_round fuel b value n s v) (ap size (omega arith), e)
  loop-size (c ∷ bs) (suc fuel) b value n s rest v e fits few enough =
      rw
        (inner_round fuel b c value n s (bs ++ rest) v.0 v.1 (head-byte c bs v.2) (omega arith) fits
          e)
        (let (found, left) =
            loop-size bs fuel c (value + c % 128 * 2 ^ (7 * n)) (n + 1) (os.recv 1 s).1 rest v.2
              (recv_byte s c (bs ++ rest) e).1 (fits_more n c value fits) (omega arith)
              (omega arith) in
          (found ∙ ap size (regroup n c value (value_of bs)), left))

  -- The fifth byte is read, and the length is refused.
  fifth :
      (fuel b c value n : ℕ) (s : S) (bs : List ℕ)
      → 128 ≤ b
      → b < 256
      → n ≡ 4
      → pending s ≡ c ∷ bs
      → ((varint_loop os (suc fuel) b value n s).0 ≡ invalid)
        × (pending (varint_loop os (suc fuel) b value n s).1 ≡ drop (5 - n) (c ∷ bs))
  unfolding varint_loop
  fifth fuel b c value n s bs top byte e p =
      rw (e, top_one b byte) (ground (arith, recv_byte s c bs p))

  loop-invalid :
      (bs : List ℕ) (fuel b value n : ℕ) (s : S) (rest : List ℕ)
      → IsVarint (b ∷ bs)
      → pending s ≡ bs ++ rest
      → value < 2 ^ (7 * n)
      → n ≤ 4
      → 4 < length bs + n
      → 4 < fuel + n
      → ((varint_loop os fuel b value n s).0 ≡ invalid)
        × (pending (varint_loop os fuel b value n s).1 ≡ drop (5 - n) (bs ++ rest))
  loop-invalid bs zero b value n s rest v e fits few long enough = absurd (omega arith)
  loop-invalid [] (suc fuel) b value n s rest v e fits few long enough = absurd (omega arith)
  loop-invalid (c ∷ bs) (suc fuel) b value n s rest v e fits few long enough = elim (dec_lt n 4) [
    | yes lt ↦
        rw (inner_round fuel b c value n s (bs ++ rest) v.0 v.1 (head-byte c bs v.2) lt fits e) (
          let (found, left) =
            loop-invalid bs fuel c (value + c % 128 * 2 ^ (7 * n)) (n + 1) (os.recv 1 s).1 rest v.2
              (recv_byte s c (bs ++ rest) e).1 (fits_more n c value fits) (omega arith)
              (omega arith) (omega arith) in
          (found, left ∙ drop_less n c (bs ++ rest) lt))
    | no ge ↦ fifth fuel b c value n s (bs ++ rest) v.0 v.1 (omega arith) e
  ]

  -- A length of at most four groups is read as the number that they stand for, and nothing behind
  -- it is taken from the stream.
  pub read_varint_prefix-value_of :
      (junk : ℕ) (s : S) (bs rest : List ℕ)
      → IsVarint bs
      → length bs ≤ 4
      → pending s ≡ bs ++ rest
      → ((read_varint_prefix os junk s).0 ≡ size (value_of bs))
        × (pending (read_varint_prefix os junk s).1 ≡ rest)
  unfolding read_varint_prefix
  read_varint_prefix-value_of junk s [] rest v few e = absurd v
  read_varint_prefix-value_of junk s (b ∷ bs) rest v few e =
      rw ((recv_byte s b (bs ++ rest) e).0, low_seven b (head-byte b bs v))
        (let (found, left) =
            loop-size bs 4 b (b % 128) 1 (os.recv 1 s).1 rest v (recv_byte s b (bs ++ rest) e).1
              (omega arith) (omega arith) (omega arith) in
          (found ∙ ap size (omega arith), left))

  -- A longer one is refused, after five bytes of it.
  pub read_varint_prefix-invalid :
      (junk : ℕ) (s : S) (bs rest : List ℕ)
      → IsVarint bs
      → 4 < length bs
      → pending s ≡ bs ++ rest
      → ((read_varint_prefix os junk s).0 ≡ invalid)
        × (pending (read_varint_prefix os junk s).1 ≡ drop 5 (bs ++ rest))
  unfolding read_varint_prefix
  read_varint_prefix-invalid junk s [] rest v long e = absurd v
  read_varint_prefix-invalid junk s (b ∷ bs) rest v long e =
      rw ((recv_byte s b (bs ++ rest) e).0, low_seven b (head-byte b bs v))
        (loop-invalid bs 4 b (b % 128) 1 (os.recv 1 s).1 rest v (recv_byte s b (bs ++ rest) e).1
          (omega arith) (omega arith) (omega arith) (omega arith))

-- Every group adds seven bits, so four of them hold 28.
value_of-lt : (bs : List ℕ) → value_of bs < 128 ^ length bs
value_of-lt [] = omega arith
value_of-lt (b ∷ bs) = omega (arith, value_of-lt bs, pow-suc 128 (length bs))
