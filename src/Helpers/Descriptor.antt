-- ===== src/Helpers/Descriptor.antt =====
-- What readControlDescriptor reads of what sendControlDescriptor sends.
use tkmcollector.Prelude.{
  ℕ, ◌+◌, ◌-◌, ◌≤◌, ◌≡◌, refl, ap, ◌∙◌, some, List, ◌++◌, append_assoc, arith,
}
use tkmcollector.Bytes.{
  drop, length, replicate, take, take-append, take-length, take-drop, length-take, length-drop,
  length-append, length-replicate,
}
use tkmcollector.Helpers.{
  Codec, Sent, buffer_size, filled, head_size, read_control_descriptor, send_control_descriptor,
}

-- What protobuf promises: a number is read back with the rest of the stream, it takes five bytes at
-- most, and an envelope that was written is read.
pub record IsCodec (k : Codec) : Type 0 where
  pub read_back : (n : ℕ) (rest : List ℕ) → k.read_varint (k.varint n ++ rest) ≡ (n, rest)
  pub short : (n : ℕ) → length (k.varint n) ≤ 5
  pub parses : (pid : ℕ) → k.parse (k.envelope pid) ≡ some pid

module _ (k : Codec) (law : IsCodec k) (pid : ℕ)
    (small : length (k.envelope pid) ≤ buffer_size - head_size) where
  abbrev size : ℕ
  size = length (k.envelope pid)

  sent : send_control_descriptor k pid ≡ Sent.bytes (take (size + head_size) (filled k pid))
  unfolding send_control_descriptor
  sent = ground (arith, small, law.short size)

  -- The coded size with an envelope and more behind it.
  abbrev stream : List ℕ → List ℕ
  stream more = k.varint size ++ (k.envelope pid ++ more)

  length-stream :
      (more : List ℕ) → length (stream more) ≡ length (k.varint size) + (size + length more)
  length-stream more =
      length-append (k.varint size) (k.envelope pid ++ more)
      ∙ ap (λ n. length (k.varint size) + n) (length-append (k.envelope pid) more)

  head_back :
      (more : List ℕ)
      → (k.read_varint (take head_size (stream more) ++ replicate (buffer_size - head_size) 0)).0
        ≡ size
  head_back more =
      ap (λ h. (k.read_varint (h ++ replicate (buffer_size - head_size) 0)).0)
        (take-append (head_size - length (k.varint size)) head_size (k.varint size)
          (k.envelope pid ++ more) (ground (arith, law.short size)))
      ∙ ap (λ h. (k.read_varint h).0)
          (append_assoc (k.varint size)
            (take (head_size - length (k.varint size)) (k.envelope pid ++ more))
            (replicate (buffer_size - head_size) 0))
      ∙ ap (λ r. r.0) (law.read_back size _)

  -- Both parts of the array are a prefix of the stream, which goes on past the envelope.
  prefix :
      (more : List ℕ)
      → take head_size (stream more) ++ take size (drop head_size (stream more))
        ≡ k.varint size ++ (k.envelope pid ++ take (head_size - length (k.varint size)) more)
  prefix more =
      take-drop head_size size (size + head_size) (stream more) (ground arith)
      ∙ take-append (size + (head_size - length (k.varint size))) (size + head_size) (k.varint size)
          (k.envelope pid ++ more) (ground (arith, law.short size))
      ∙ ap (λ xs. k.varint size ++ xs)
          (take-append (head_size - length (k.varint size))
            (size + (head_size - length (k.varint size))) (k.envelope pid) more refl)

  body_back :
      (more zeros : List ℕ)
      → k.parse (
          take size
            (k.read_varint (
              take head_size (stream more) ++ take size (drop head_size (stream more)) ++ zeros)).1)
        ≡ some pid
  body_back more zeros =
      let rest = take (head_size - length (k.varint size)) more in
      ap (λ xs. k.parse (take size (k.read_varint (xs ++ zeros)).1)) (prefix more)
      ∙ ap (λ xs. k.parse (take size (k.read_varint xs).1))
          (append_assoc (k.varint size) (k.envelope pid ++ rest) zeros)
      ∙ ap (λ r. k.parse (take size r.1)) (law.read_back size ((k.envelope pid ++ rest) ++ zeros))
      ∙ ap (λ xs. k.parse (take size xs)) (append_assoc (k.envelope pid) rest zeros)
      ∙ ap k.parse (take-length (k.envelope pid) (rest ++ zeros))
      ∙ law.parses pid

  pub read_stream :
      (more : List ℕ)
      → head_size ≤ length (k.varint size) + length more
      → read_control_descriptor k (stream more) ≡ some pid
  unfolding read_control_descriptor
  read_stream more h = ground (
    arith,
    h,
    small,
    length-stream more,
    length-drop head_size (stream more),
    head_back more,
    body_back more (replicate (buffer_size - head_size - size) 0),
  )

  abbrev padding : List ℕ
  padding = replicate {A = ℕ} (buffer_size - length (k.varint size ++ k.envelope pid)) 0

  filled_part :
      take (size + head_size) (filled k pid)
      ≡ k.varint size ++ (k.envelope pid ++ take (head_size - length (k.varint size)) padding)
  filled_part =
      ap (take (size + head_size)) (append_assoc (k.varint size) (k.envelope pid) padding)
      ∙ take-append (size + (head_size - length (k.varint size))) (size + head_size) (k.varint size)
          (k.envelope pid ++ padding) (ground (arith, law.short size))
      ∙ ap (λ xs. k.varint size ++ xs)
          (take-append (head_size - length (k.varint size))
            (size + (head_size - length (k.varint size))) (k.envelope pid) padding refl)

  length-padding :
      length (take (head_size - length (k.varint size)) padding)
      ≡ head_size - length (k.varint size)
  length-padding = length-take (head_size - length (k.varint size)) padding (
      ground (
        arith,
        small,
        law.short size,
        length-append (k.varint size) (k.envelope pid),
        length-replicate {A = ℕ} (buffer_size - length (k.varint size ++ k.envelope pid)) 0,
      ))

  sent_back :
      (more : List ℕ)
      → read_control_descriptor k (take (size + head_size) (filled k pid) ++ more) ≡ some pid
  sent_back more =
      let pad = take (head_size - length (k.varint size)) padding in
      ap (λ xs. read_control_descriptor k (xs ++ more)) filled_part
      ∙ ap (read_control_descriptor k) (
          append_assoc (k.varint size) (k.envelope pid ++ pad) more
          ∙ ap (λ xs. k.varint size ++ xs) (append_assoc (k.envelope pid) pad more))
      ∙ read_stream (pad ++ more)
          (ground (arith, law.short size, length-append pad more, length-padding))

-- The bytes are read as the descriptor, whatever follows them.
abbrev pub IsReadBack : Codec → ℕ → List ℕ → Sent → Type 0
IsReadBack k pid more Sent.refused = ⊥
IsReadBack k pid more (Sent.bytes xs) = read_control_descriptor k (xs ++ more) ≡ some pid
IsReadBack k pid more (Sent.over_read n) = ⊥

-- A descriptor whose envelope leaves the eight bytes of the head free in the buffer is sent without
-- reading past the buffer, and the collector reads it back from what was sent, whatever follows.
pub send_control_descriptor-IsReadBack :
    (k : Codec) (pid : ℕ) (more : List ℕ)
    → IsCodec k
    → length (k.envelope pid) ≤ buffer_size - head_size
    → IsReadBack k pid more (send_control_descriptor k pid)
send_control_descriptor-IsReadBack k pid more law small =
    rw (sent k law pid small) (sent_back k law pid small more)
