-- ===== src/Channel/Read/Delivered.antt =====
-- `readCommand` of src/util/ClientServerChannel.cc on any socket: short reads, failures, and whatever
-- bytes there are.
use omnetpp_federate.Prelude.{
  ℕ, zero, suc, ◌-◌, ◌^◌, ◌<◌, ◌≤◌, ◌≡◌, ◌≢◌, ◌∙◌, refl, sym, ap, subst, List, [], ◌∷◌, ◌++◌,
  length, length-append, drop, drop-length, replicate, length-replicate, arith, ltb, ◌==◌, ==_iff,
  not, ◌&&◌, Bool-cases, inl, inr,
}
use mathlib.Core.List.{append-nil}
use omnetpp_federate.Channel.Types.{Cmd, cmd_undef}
use omnetpp_federate.Channel.Convert.{proto_cmd_to_cmd}
use omnetpp_federate.Channel.System.{Sockets, Codec, Received, bytes, failed}
use omnetpp_federate.Channel.Varint.{Prefix, size, invalid, unfinished, read_varint_prefix}
use omnetpp_federate.Channel.Varint.Bounds.{HasBytes, IsShort, read_varint_prefix-IsShort}
use omnetpp_federate.Channel.Read.{
  count, stored_in, parse_command, finish_command, poll_loop, retry_command, read_command_body,
  command_of_prefix, read_command,
}

-- `recv` stores no more bytes than it is asked for.
abbrev pub HasRoom : {S : Type 0} → Sockets S → Type 0
HasRoom {S = S} os = (n : ℕ) (s : S) (bs : List ℕ) → (os.recv n s).0 ≡ bytes bs → length bs ≤ n

drop_size : (m : ℕ) (xs : List ℕ) → length (drop m xs) ≡ length xs - m
drop_size zero xs = omega arith
drop_size (suc m) [] = omega arith
drop_size (suc m) (x ∷ xs) = omega (arith, drop_size m xs)

pub stored_size :
    (buffer : List ℕ) (r : Received)
    → ((bs : List ℕ) → r ≡ bytes bs → length bs ≤ length buffer)
    → length (stored_in buffer r) ≡ length buffer
stored_size buffer (bytes bs) h =
    omega
      (arith, h bs refl, length-append bs (drop (length bs) buffer), drop_size (length bs) buffer)
stored_size buffer failed h = refl

module _ {D S : Type 0} (os : Sockets S) (codec : Codec D) (has : HasBytes os) (room : HasRoom os)
    (junk : ℕ) (byte : junk < 256) where
  -- The command is that of a message, not empty and shorter than 2 ^ 28 bytes, all of which one `recv`
  -- delivered.
  pub record IsComplete (c : Cmd) : Type 0 where
    pub message : List ℕ
    pub filled : 0 < length message
    pub short : length message < 2 ^ 28
    pub place : S
    delivered : (os.recv (length message) place).0 ≡ bytes message
    parsed : c ≡ proto_cmd_to_cmd (codec.parse_command message)

  finish-IsComplete :
      (n : ℕ) (buffer : List ℕ) (place t : S) (r : Received) (c : Cmd)
      → length buffer ≡ n
      → n < 2 ^ 28
      → (os.recv n place).0 ≡ r
      → c ≢ cmd_undef
      → (finish_command os codec junk n (stored_in buffer r) (count r) t).0 ≡ c
      → IsComplete c
  unfolding finish_command parse_command
  finish-IsComplete n buffer place t failed c l short e ne h =
      elim (Bool-cases ((2 ^ 64 - 1) == n)) [
        | inl q ↦ absurd (omega (arith, (==_iff (2 ^ 64 - 1) n).0 q))
        | inr q ↦ absurd (ne (sym h ∙ rw (finish_command, q) refl))
      ]
  finish-IsComplete n buffer place t (bytes bs) c l short e ne h =
      elim (Bool-cases (length bs == n)) [
        | inr q ↦ absurd (ne (sym h ∙ rw (finish_command, q) refl))
        | inl q ↦ elim (Bool-cases (ltb 0 n)) [
          | inr z ↦ absurd (ne (sym h ∙ rw (finish_command, q, parse_command, z) refl))
          | inl z ↦
              let same : length bs ≡ n = (==_iff (length bs) n).0 q in
              let whole : bs ++ drop (length bs) buffer ≡ bs =
                ap (λ l. bs ++ l) (drop-length (length bs) buffer (l ∙ sym same)) ∙ append-nil bs in
              record {
                message = bs;
                filled = ground arith;
                short = omega arith;
                place = place;
                delivered = subst (λ m. (os.recv m place).0 ≡ bytes bs) (sym same) e;
                parsed =
                    sym h
                    ∙ rw (finish_command, q, parse_command, z)
                        (ap (λ l. proto_cmd_to_cmd (codec.parse_command l)) whole);
              }
        ]
      ]

  retry-IsComplete :
      (n : ℕ) (buffer : List ℕ) (s : S) (c : Cmd)
      → length buffer ≡ n
      → n < 2 ^ 28
      → c ≢ cmd_undef
      → (retry_command os codec junk n buffer s).0 ≡ c
      → IsComplete c
  unfolding retry_command
  retry-IsComplete n buffer s c l short ne h =
      let (retries, s1) = poll_loop os codec junk 3 s in
      let (r, s2) = os.recv n s1 in
      elim (Bool-cases (not (retries == 3) && ltb (count r) 1)) [
        | inl q ↦ absurd (ne (sym h ∙ rw (retry_command, q) refl))
        | inr q ↦
            let again : retry_command os codec junk n buffer s
                ≡ finish_command os codec junk n (stored_in buffer r) (count r) s2 =
              rw (retry_command, q) refl in
            finish-IsComplete n buffer s1 s2 r c l short refl ne
              (sym (ap (λ (o : Cmd × S). o.0) again) ∙ h)
      ]

  body-IsComplete :
      (n : ℕ) (s : S) (c : Cmd)
      → n < 2 ^ 28
      → c ≢ cmd_undef
      → (read_command_body os codec junk n s).0 ≡ c
      → IsComplete c
  unfolding read_command_body
  body-IsComplete n s c short ne h =
      let (r, s') = os.recv n s in
      let zeros : List ℕ = replicate n 0 in
      let full : length zeros ≡ n = length-replicate {A = ℕ} n 0 in
      let buffer : List ℕ = stored_in zeros r in
      elim (Bool-cases (ltb 0 n && not (count r == n))) [
        | inl q ↦
            let retried : read_command_body os codec junk n s
                ≡ retry_command os codec junk n buffer s' =
              rw (read_command_body, q) refl in
            let kept : length buffer ≡ n =
              stored_size zeros r (λ bs e. omega (arith, room n s bs e, full)) ∙ full in
            retry-IsComplete n buffer s' c kept short ne
              (sym (ap (λ (o : Cmd × S). o.0) retried) ∙ h)
        | inr q ↦
            let finished : read_command_body os codec junk n s
                ≡ finish_command os codec junk n buffer (count r) s' =
              rw (read_command_body, q) refl in
            finish-IsComplete n zeros s s' r c full short refl ne
              (sym (ap (λ (o : Cmd × S). o.0) finished) ∙ h)
      ]

  prefix-IsComplete :
      (p : Prefix) (s : S) (c : Cmd)
      → IsShort p
      → c ≢ cmd_undef
      → (command_of_prefix os codec junk (p, s)).0 ≡ c
      → IsComplete c
  unfolding command_of_prefix
  prefix-IsComplete (size n) s c short ne h = body-IsComplete n s c short ne h
  prefix-IsComplete invalid s c short ne h = absurd (ne (sym h))
  prefix-IsComplete unfinished s c short ne h = absurd (ne (sym h))

  -- Whatever `recv` and `poll` do, if `recv` stores bytes and no more of them than it is asked for: a
  -- command other than the undefined one is only returned for a message, not empty and shorter than
  -- 2 ^ 28 bytes, all of which one `recv` delivered, and it is the command of this message.
  pub read_command-IsComplete :
      (s : S) (c : Cmd) → c ≢ cmd_undef → (read_command os codec junk s).0 ≡ c → IsComplete c
  unfolding read_command
  read_command-IsComplete s c ne h =
      let (p, s') = read_varint_prefix os junk s in
      prefix-IsComplete p s' c (read_varint_prefix-IsShort os has junk s byte) ne h
