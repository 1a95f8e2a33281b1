-- ===== src/Channel/Print/Addresses.antt =====
-- `uint32_to_ip` of src/util/ClientServerChannel.cc against the reading of a dotted quad.
use mathlib.Core.List.{append-nil}
use omnetpp_federate.Prelude.{
  ℕ, ◌+◌, ◌-◌, ◌*◌, ◌/◌, ◌%◌, ◌^◌, ◌<◌, ◌≡◌, ◌∙◌, List, [], ◌∷◌, ◌++◌, ltb, ◌==◌, arith,
  if◌then◌else◌, ap, sym, Bool-cases, inl, inr, false,
}
use omnetpp_federate.Channel.Print.{byte_to_string, uint32_to_ip}

-- The numbers between the dots, read on behind `n`.
abbrev fields : ℕ → List ℕ → List ℕ
fields n [] = n ∷ []
fields n (c ∷ cs) =
    let next = fields 0 cs in
    let more = fields (n * 10 + (c - 48)) cs in if c == b'.' then n ∷ next else more

-- Their value, the first one the highest.
abbrev value_of_fields : ℕ → List ℕ → ℕ
value_of_fields n [] = n
value_of_fields n (b ∷ bs) = value_of_fields (n * 256 + b) bs

not_dot : (d : ℕ) → ((48 + d) == b'.') ≡ false
not_dot d = ground arith

fields-digit : (n d : ℕ) (cs : List ℕ) → fields n ((48 + d) ∷ cs) ≡ fields (n * 10 + d) cs
fields-digit n d cs = rw (not_dot d) (ap (λ (x : ℕ). fields (n * 10 + x) cs) (omega arith))

fields-byte_to_string :
    (b : ℕ) (rest : List ℕ) → b < 256 → fields 0 (byte_to_string b ++ rest) ≡ fields b rest
unfolding byte_to_string
fields-byte_to_string b rest h = elim (Bool-cases (ltb b 10)) [
  | inl e ↦ rw e (fields-digit 0 b rest ∙ ap (λ (x : ℕ). fields x rest) (omega arith))
  | inr e ↦ elim (Bool-cases (ltb b 100)) [
    | inl q ↦
        rw (e, q)
          (fields-digit 0 (b / 10) ((48 + b % 10) ∷ rest)
            ∙ fields-digit (0 * 10 + b / 10) (b % 10) rest
            ∙ ap (λ (x : ℕ). fields x rest) (ground arith))
    | inr q ↦
        rw (e, q)
          (fields-digit 0 (b / 100) ((48 + b / 10 % 10) ∷ (48 + b % 10) ∷ rest)
            ∙ fields-digit (0 * 10 + b / 100) (b / 10 % 10) ((48 + b % 10) ∷ rest)
            ∙ fields-digit ((0 * 10 + b / 100) * 10 + b / 10 % 10) (b % 10) rest
            ∙ ap (λ (x : ℕ). fields x rest) (ground arith))
  ]
]

-- The four numbers of the text are the four bytes of the address, and their value is the address: it
-- is read back from its text.
fields-uint32_to_ip :
    (ip : ℕ)
    → ip < 2 ^ 32
    → (fields 0 (uint32_to_ip ip)
        ≡ ip / 2 ^ 24 % 256 ∷ ip / 2 ^ 16 % 256 ∷ ip / 2 ^ 8 % 256 ∷ ip % 256 ∷ [])
      × (value_of_fields 0 (fields 0 (uint32_to_ip ip)) ≡ ip)
unfolding uint32_to_ip
fields-uint32_to_ip ip h =
    let parts : fields 0 (uint32_to_ip ip)
        ≡ ip / 2 ^ 24 % 256 ∷ ip / 2 ^ 16 % 256 ∷ ip / 2 ^ 8 % 256 ∷ ip % 256 ∷ [] =
      fields-byte_to_string (ip / 2 ^ 24 % 256) _ (omega arith)
      ∙ ap (λ l. ip / 2 ^ 24 % 256 ∷ l)
          (fields-byte_to_string (ip / 2 ^ 16 % 256) _ (omega arith)
            ∙ ap (λ l. ip / 2 ^ 16 % 256 ∷ l)
                (fields-byte_to_string (ip / 2 ^ 8 % 256) _ (omega arith)
                  ∙ ap (λ l. ip / 2 ^ 8 % 256 ∷ l)
                      (ap (fields 0) (sym (append-nil (byte_to_string (ip % 256))))
                        ∙ fields-byte_to_string (ip % 256) [] (omega arith)))) in
    (parts, ap (value_of_fields 0) parts ∙ omega arith)
