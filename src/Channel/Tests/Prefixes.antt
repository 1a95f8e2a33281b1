-- ===== src/Channel/Tests/Prefixes.antt =====
-- Lengths in front of messages, and the text of an address.
use omnetpp_federate.Prelude.{ℕ, List, map, ◌<◌, ◌%◌, ◌≡◌, ◌≢◌, refl, [], ◌∷◌, arith}
use omnetpp_federate.Prelude.Int.{pos}
use omnetpp_federate.Channel.System.{Sockets, Received, bytes, failed}
use omnetpp_federate.Channel.Varint.{size, invalid, unfinished, read_varint_prefix}
use omnetpp_federate.Channel.Varint.Format.{read_varint_prefix-value_of, read_varint_prefix-invalid}
use omnetpp_federate.Channel.Varint.Failing.{
  read_varint_prefix-ne-unfinished, read_varint_prefix-failed,
}
use omnetpp_federate.Channel.Varint.Bounds.{IsShort, read_varint_prefix-IsShort}
use omnetpp_federate.Channel.Tests.{Stream, sockets, sockets-StreamLaws}

read_varint_prefix-value_of_example :
    ((read_varint_prefix sockets 0 (172 ∷ 2 ∷ 9 ∷ [], [])).0 ≡ size 300)
    × ((read_varint_prefix sockets 0 (172 ∷ 2 ∷ 9 ∷ [], [])).1.0 ≡ 9 ∷ [])
read_varint_prefix-value_of_example =
    read_varint_prefix-value_of sockets sockets-StreamLaws 0 (172 ∷ 2 ∷ 9 ∷ [], []) (172 ∷ 2 ∷ [])
      (9 ∷ []) (omega arith, omega arith, omega arith) (omega arith) refl

read_varint_prefix-invalid_example :
    ((read_varint_prefix sockets 0 (128 ∷ 128 ∷ 128 ∷ 128 ∷ 128 ∷ 1 ∷ [], [])).0 ≡ invalid)
    × ((read_varint_prefix sockets 0 (128 ∷ 128 ∷ 128 ∷ 128 ∷ 128 ∷ 1 ∷ [], [])).1.0 ≡ 1 ∷ [])
read_varint_prefix-invalid_example =
    read_varint_prefix-invalid sockets sockets-StreamLaws 0
      (128 ∷ 128 ∷ 128 ∷ 128 ∷ 128 ∷ 1 ∷ [], []) (128 ∷ 128 ∷ 128 ∷ 128 ∷ 128 ∷ 1 ∷ []) []
      (
        omega arith,
        omega arith,
        (
          omega arith,
          omega arith,
          (
            omega arith,
            omega arith,
            (omega arith, omega arith, (omega arith, omega arith, omega arith)),
          ),
        ),
      )
      (omega arith) refl

read_varint_prefix-ne-unfinished_example : (read_varint_prefix sockets 0 ([], [])).0 ≢ unfinished
read_varint_prefix-ne-unfinished_example = read_varint_prefix-ne-unfinished sockets 0 ([], [])

-- A socket on which every `recv` fails.
abbrev broken_sockets : Sockets Stream
broken_sockets = record { recv = λ n s. (failed, s); poll = λ s. (pos 1, s); send = λ bs s. s }

read_varint_prefix-failed_example : (read_varint_prefix broken_sockets 170 ([], [])).0 ≡ size 42
read_varint_prefix-failed_example =
    read_varint_prefix-failed broken_sockets 170 ([], []) (omega arith) refl refl

-- A socket whose stream holds numbers, of which it delivers the low eight bits.
abbrev low_bytes : Received → Received
low_bytes failed = failed
low_bytes (bytes bs) = bytes (map (λ b. b % 256) bs)

abbrev byte_sockets : Sockets Stream
byte_sockets = record sockets {
  recv = λ n s. (low_bytes (sockets.recv n s).0, (sockets.recv n s).1);
}

low_bytes-lt : (r : Received) (b : ℕ) (bs : List ℕ) → low_bytes r ≡ bytes (b ∷ bs) → b < 256
low_bytes-lt failed b bs e = absurd cc
low_bytes-lt (bytes []) b bs e = absurd cc
low_bytes-lt (bytes (c ∷ cs)) b bs e = ground (arith, e)

-- Four bytes arrive, with the length 2 ^ 28 - 1 in them.
read_varint_prefix-IsShort_example :
    IsShort (read_varint_prefix byte_sockets 0 (255 ∷ 255 ∷ 255 ∷ 127 ∷ 9 ∷ [], [])).0
read_varint_prefix-IsShort_example =
    read_varint_prefix-IsShort byte_sockets (λ n s. low_bytes-lt (sockets.recv n s).0) 0
      (255 ∷ 255 ∷ 255 ∷ 127 ∷ 9 ∷ [], []) (omega arith)

-- The length that it reads.
longest :
    (read_varint_prefix byte_sockets 0 (255 ∷ 255 ∷ 255 ∷ 127 ∷ 9 ∷ [], [])).0 ≡ size 268435455
unfolding read_varint_prefix
longest = refl
