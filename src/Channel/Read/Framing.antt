-- ===== src/Channel/Read/Framing.antt =====
-- A frame of src/util/ClientServerChannel.cc on the stream: a length, and as many bytes. What the
-- readers share is that they take the length by `readVarintPrefix` and the body by one `recv`.
use mathlib.Core.List.{append_assoc, append-nil}
use omnetpp_federate.Prelude.{
  ℕ, ◌^◌, ◌<◌, ◌≡◌, ◌∙◌, refl, ap, List, ◌++◌, length, length-append, take, drop, take-append,
  drop-append, replicate, length-replicate, drop-length, arith,
}
use omnetpp_federate.Channel.System.{Sockets, Codec, StreamLaws, CommandLaws, bytes}
use omnetpp_federate.Channel.Varint.{Prefix, size, read_varint_prefix}
use omnetpp_federate.Channel.Varint.Format.{IsVarint, value_of, read_varint_prefix-value_of}
use omnetpp_federate.Channel.Varint.Sent.{read_varint_prefix-sent}
use omnetpp_federate.Channel.Write.{framed}
use omnetpp_federate.Channel.Read.{stored_in, read_buffer}

-- What a reader makes of the prefix, once that is known to be a size.
pub of_size :
    {A S : Type 0} (f : Prefix × S → A) (n : ℕ) (p : Prefix × S)
    → p.0 ≡ size n
    → f p ≡ f (size n, p.1)
of_size f n p e = ap (λ (q : Prefix). f (q, p.1)) e

module _ {D S : Type 0} (os : Sockets S) (codec : Codec D) (stream : StreamLaws os)
    (laws : CommandLaws IsVarint value_of codec) (junk : ℕ) where
  open stream use {pending, sent}

  -- A body that is there in full is stored in the whole buffer.
  pub recv_body :
      (s : S) (body rest : List ℕ)
      → pending s ≡ body ++ rest
      → ((os.recv (length body) s).0 ≡ bytes body) × (pending (os.recv (length body) s).1 ≡ rest)
  recv_body s body rest e = (
    stream.recv-bytes (length body) s (omega (arith, ap length e, length-append body rest))
        ∙ ap (λ (l : List ℕ). bytes (take (length body) l)) e
        ∙ ap bytes (take-append body rest),
    stream.recv-pending (length body) s (omega (arith, ap length e, length-append body rest))
        ∙ ap (λ (l : List ℕ). drop (length body) l) e
        ∙ drop-append body rest,
  )

  pub whole_buffer : (body : List ℕ) → stored_in (replicate (length body) 0) (bytes body) ≡ body
  whole_buffer body =
      rw
        (drop-length {A = ℕ} (length body) (replicate (length body) 0)
          (length-replicate {A = ℕ} (length body) 0))
        (append-nil body)

  pub frame_prefix :
      (s : S) (body rest : List ℕ)
      → length body < 128 ^ 4
      → pending s ≡ framed os codec body ++ rest
      → ((read_varint_prefix os junk s).0 ≡ size (length body))
        × (pending (read_varint_prefix os junk s).1 ≡ body ++ rest)
  frame_prefix s body rest short e =
      let (found, left) =
        read_varint_prefix-value_of os stream junk s (codec.write_varint (length body))
          (body ++ rest) (laws.varint-IsVarint (length body))
          (laws.varint_short (length body) short)
          (e ∙ append_assoc (codec.write_varint (length body)) body rest) in
      (found ∙ ap size (laws.value_of-varint (length body)), left)

  -- The body in the buffer, the count, what is left, and nothing sent.
  abbrev IsBody : S → List ℕ → List ℕ → List ℕ × ℕ × S → Type 0
  IsBody s body rest (buffer, n, t) =
      (buffer ≡ body) × (n ≡ length body) × (pending t ≡ rest) × (sent t ≡ sent s)

  read_buffer-IsBody :
      (s : S) (body rest : List ℕ)
      → pending s ≡ body ++ rest
      → IsBody s body rest (read_buffer os codec junk (length body) s)
  unfolding read_buffer
  read_buffer-IsBody s body rest e =
      let (stored_bytes, behind) = recv_body s body rest e in
      rw (stored_bytes, whole_buffer body) (refl, refl, behind, stream.recv-sent (length body) s)

  -- A frame is read as its body, and the stream is then behind it.
  pub frame-IsBody :
      (s : S) (body rest : List ℕ)
      → length body < 128 ^ 4
      → pending s ≡ framed os codec body ++ rest
      → ((read_varint_prefix os junk s).0 ≡ size (length body))
        × IsBody s body rest
            (read_buffer os codec junk (length body) (read_varint_prefix os junk s).1)
  frame-IsBody s body rest short e =
      let (found, left) = frame_prefix s body rest short e in
      let (buffer, counted, behind, quiet) =
        read_buffer-IsBody (read_varint_prefix os junk s).1 body rest left in
      (found, (buffer, counted, behind, quiet ∙ read_varint_prefix-sent os stream junk s))
