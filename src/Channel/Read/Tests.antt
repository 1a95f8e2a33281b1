-- ===== src/Channel/Read/Tests.antt =====
-- `readCommand` on a socket that hands out ones, and its safety there.
use omnetpp_federate.Prelude.{
  ℕ, zero, suc, ◌≡◌, refl, List, [], ◌∷◌, length, replicate, length-replicate, arith, ap,
}
use omnetpp_federate.Prelude.Int.{pos}
use omnetpp_federate.Channel.Types.{cmd_init, init}
use omnetpp_federate.Channel.Convert.{proto_cmd_to_cmd}
use omnetpp_federate.Channel.System.{Sockets, Codec, Received, bytes}
use omnetpp_federate.Channel.Varint.{read_varint_prefix, varint_loop}
use omnetpp_federate.Channel.Varint.Bounds.{HasBytes}
use omnetpp_federate.Channel.Read.{poll_loop, read_command}
use omnetpp_federate.Channel.Read.Retry.{command_in, read_command-retried}
use omnetpp_federate.Channel.Read.Delivered.{HasRoom, IsComplete, read_command-IsComplete}
use omnetpp_federate.Channel.Tests.{codec}

-- Every message is INIT.
abbrev greeting : Codec ℕ
greeting = record codec { parse_command = λ bs. init }

-- The state counts the calls.
abbrev ones : Sockets ℕ
ones = record {
  recv = λ n s. (bytes (replicate n 1), suc s);
  poll = λ s. (pos 1, s);
  send = λ bs s. s;
}

ones-HasBytes : HasBytes ones
ones-HasBytes zero s b bs e = absurd cc
ones-HasBytes (suc n) s b bs e = let same : 1 ≡ b = cc in omega arith

size_of : Received → ℕ
size_of (bytes bs) = length bs
size_of _ = 0

ones-HasRoom : HasRoom ones
unfolding size_of
ones-HasRoom n s bs e =
    let same : length (replicate n 1) ≡ length bs = ap size_of e in
    omega (arith, same, length-replicate {A = ℕ} n 1)

read_command-IsComplete_example :
    IsComplete ones greeting ones-HasBytes ones-HasRoom 0 (omega arith) cmd_init
unfolding read_command read_varint_prefix varint_loop proto_cmd_to_cmd
read_command-IsComplete_example =
    read_command-IsComplete ones greeting ones-HasBytes ones-HasRoom 0 (omega arith) 0 cmd_init
      (λ e. absurd cc) refl

-- A peer whose message of three bytes is cut into two and one, with three more behind it.
abbrev part : ℕ → ℕ → List ℕ
part n zero = 3 ∷ []
part n (suc zero) = 1 ∷ 2 ∷ []
part n (suc (suc s)) = 3 ∷ 4 ∷ 5 ∷ []

abbrev cut : Sockets ℕ
cut = record { recv = λ n s. (bytes (part n s), suc s); poll = λ s. (pos 1, s); send = λ bs s. s }

read_command-retried_example :
    (read_command cut greeting 0 0).0 ≡ command_in cut greeting 0 3 (3 ∷ 4 ∷ 5 ∷ [])
unfolding read_varint_prefix varint_loop poll_loop
read_command-retried_example =
    read_command-retried cut greeting 0 0 3 (1 ∷ 2 ∷ []) (3 ∷ 4 ∷ 5 ∷ []) refl refl (omega arith)
      refl
