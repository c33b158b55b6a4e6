-- ===== src/Helpers.antt =====
-- shared/Helpers.cpp: the hash of a device, and the descriptor that a control client sends first. The
-- coding of numbers and messages is protobuf's, and is a parameter.
pub mod Descriptor
use tkmcollector.Prelude.{
  ℕ, ◌+◌, ◌-◌, String, ◌<>◌, Bool, Option, none, some, List, ◌++◌, ◌||◌, not, if◌then◌else◌, leb,
}
use tkmcollector.Number.{int_to_string, to_string}
use tkmcollector.Messages.{DeviceData}
use tkmcollector.Bytes.{drop, length, replicate, take}

-- `hash` is `jnkHsh` of libtaskmonitor.
unfoldable pub hash_for_device : (String → ℕ) → DeviceData → String
hash_for_device hash d = to_string (hash (d.address <> int_to_string d.port))

-- GDescBufferSize
abbrev pub buffer_size : ℕ
buffer_size = 1024

-- sizeof(uint64_t), the part that is read first.
abbrev pub head_size : ℕ
head_size = 8

-- A descriptor is its process id. `envelope` is the envelope with it as bytes, `varint` and
-- `read_varint` are WriteVarint32 and ReadVarint32, the latter with what is left to read, and `parse`
-- reads the descriptor from an envelope.
pub record Codec : Type 0 where
  pub envelope : ℕ → List ℕ
  pub varint : ℕ → List ℕ
  pub read_varint : List ℕ → ℕ × List ℕ
  pub parse : List ℕ → Option ℕ

-- What sendControlDescriptor gives to `send`: nothing where it returns false first, or bytes of the
-- buffer, or more than the buffer has.
pub data Sent : Type 0 where
  refused : Sent
  bytes : List ℕ → Sent
  over_read : ℕ → Sent

module _ (k : Codec) where
  -- The array after the size and the envelope were written into it.
  abbrev pub filled : ℕ → List ℕ
  filled pid =
      let written = k.varint (length (k.envelope pid)) ++ k.envelope pid in
      written ++ replicate (buffer_size - length written) 0

  unfoldable pub send_control_descriptor : ℕ → Sent
  send_control_descriptor pid =
      let size = length (k.envelope pid) in
      if not (leb size buffer_size) || not (leb (length (k.varint size) + size) buffer_size)
      then Sent.refused
      else if leb (size + head_size) buffer_size
      then Sent.bytes (take (size + head_size) (filled pid))
      else Sent.over_read (size + head_size)

  -- `recv` with MSG_WAITALL: so many bytes and the rest, unless the stream ends before.
  abbrev recv : ℕ → List ℕ → Option (List ℕ × List ℕ)
  recv n stream = if leb n (length stream) then some (take n stream, drop n stream) else none

  -- The parse of the envelope from the array with both parts.
  abbrev parsed : ℕ → List ℕ → Option ℕ
  parsed size array = k.parse (take size (k.read_varint array).1)

  abbrev zeros : ℕ → List ℕ
  zeros n = replicate n 0

  -- The second part is as long as the first says, if it fits behind it.
  abbrev read_body : List ℕ → List ℕ → Option ℕ
  read_body head stream =
      let size = (k.read_varint (head ++ zeros (buffer_size - head_size))).0 in
      if not (leb size (buffer_size - head_size)) then none else elim (recv size stream) [
        | none ↦ none
        | some (body, _) ↦ parsed size (head ++ body ++ zeros (buffer_size - head_size - size))
      ]

  -- The descriptor, where it returns true.
  unfoldable pub read_control_descriptor : List ℕ → Option ℕ
  read_control_descriptor stream = elim (recv head_size stream) [
    | none ↦ none
    | some (head, rest) ↦ read_body head rest
  ]
