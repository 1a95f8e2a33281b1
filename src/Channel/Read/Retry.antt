-- ===== src/Channel/Read/Retry.antt =====
-- The second attempt of `readCommand` of src/util/ClientServerChannel.cc, after a short read.
use omnetpp_federate.Prelude.{
  ℕ, ◌<◌, ◌≡◌, ◌∙◌, refl, sym, ap, List, length, drop, drop-length, replicate, length-replicate,
  ◌++◌, arith, ltb, ◌==◌, ==_iff, not, ◌&&◌, Bool-cases, inl, inr, if◌then◌else◌, true, false,
}
use mathlib.Core.List.{append-nil}
use omnetpp_federate.Channel.Types.{Cmd, cmd_undef}
use omnetpp_federate.Channel.Convert.{proto_cmd_to_cmd}
use omnetpp_federate.Channel.System.{Sockets, Codec, bytes}
use omnetpp_federate.Channel.Varint.{size, read_varint_prefix}
use omnetpp_federate.Channel.Read.{
  count, stored_in, parse_command, finish_command, poll_loop, retry_command, read_command_body,
  command_of_prefix, read_command,
}
use omnetpp_federate.Channel.Read.Framing.{of_size}
use omnetpp_federate.Channel.Read.Delivered.{stored_size}

module _ {D S : Type 0} (os : Sockets S) (codec : Codec D) (junk : ℕ) where
  -- The command in `b`, if that has the length of the message.
  abbrev pub command_in : ℕ → List ℕ → Cmd
  command_in n b = if length b == n then proto_cmd_to_cmd (codec.parse_command b) else cmd_undef

  finish_command-bytes :
      (n : ℕ) (buffer b : List ℕ) (s : S)
      → 0 < n
      → length buffer ≡ n
      → (finish_command os codec junk n (stored_in buffer (bytes b)) (length b) s).0
        ≡ command_in n b
  unfolding finish_command parse_command
  finish_command-bytes n buffer b s filled full = elim (Bool-cases (length b == n)) [
    | inr q ↦ rw (finish_command, q) refl
    | inl q ↦
        let same : length b ≡ n = (==_iff (length b) n).0 q in
        let whole : b ++ drop (length b) buffer ≡ b =
          ap (λ (l : List ℕ). b ++ l) (drop-length (length b) buffer (full ∙ sym same))
          ∙ append-nil b in
        let some_bytes : ltb 0 n ≡ true = ground arith in
        rw (finish_command, q, parse_command, some_bytes)
          (ap (λ l. proto_cmd_to_cmd (codec.parse_command l)) whole)
  ]

  retry_command-bytes :
      (n : ℕ) (buffer b : List ℕ) (s : S)
      → 0 < n
      → length buffer ≡ n
      → (os.recv n (poll_loop os codec junk 3 s).1).0 ≡ bytes b
      → (retry_command os codec junk n buffer s).0 ≡ command_in n b
  unfolding retry_command
  retry_command-bytes n buffer b s filled full second =
      let (retries, s1) = poll_loop os codec junk 3 s in
      elim (Bool-cases (not (retries == 3) && ltb (length b) 1)) [
        | inl q ↦
            let short : (length b == n) ≡ false = ground arith in
            rw (retry_command, second, q, short) refl
        | inr q ↦
            rw (retry_command, second, q)
              (finish_command-bytes n buffer b (os.recv n s1).1 filled full)
      ]

  -- With a length in front: if the first `recv` of a message stores fewer bytes than the message
  -- has, these bytes are lost: the command is that of the bytes that the second `recv` stores, if
  -- they have the length of a whole message, and else the undefined one.
  pub read_command-retried :
      (s : S) (n : ℕ) (a b : List ℕ)
      → let after = (read_varint_prefix os junk s).1 in
        (read_varint_prefix os junk s).0 ≡ size n
        → (os.recv n after).0 ≡ bytes a
        → length a < n
        → (os.recv n (poll_loop os codec junk 3 (os.recv n after).1).1).0 ≡ bytes b
        → (read_command os codec junk s).0 ≡ command_in n b
  unfolding read_command command_of_prefix read_command_body
  read_command-retried s n a b sized first short second =
      let after = (read_varint_prefix os junk s).1 in
      let cut : (ltb 0 n && not (length a == n)) ≡ true = ground arith in
      let full : length (stored_in (replicate n 0) (bytes a)) ≡ n =
        stored_size (replicate n 0) (bytes a)
          (λ bs e. omega (arith, ap count e, length-replicate {A = ℕ} n 0))
        ∙ length-replicate {A = ℕ} n 0 in
      rw
        (
          of_size (command_of_prefix os codec junk) n (read_varint_prefix os junk s) sized,
          first,
          cut,
        )
        (retry_command-bytes n (stored_in (replicate n 0) (bytes a)) b (os.recv n after).1
          (omega arith) full second)
