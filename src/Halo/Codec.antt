-- ===== src/Halo/Codec.antt =====
-- `encode_message` and `decode_fragment` of crates/sim-platform-halo/src/halo.rs.
pub mod Laws
use sim_platform.Prelude.{
  ℕ, zero, suc, ◌+◌, ◌-◌, ◌*◌, ◌/◌, ◌^◌, min, max, Bool, not, ◌&&◌, ◌||◌, Option, none, some, List,
  [], ◌∷◌, ◌++◌, ltb, leb, eqb, if◌then◌else◌, length, get_elem?, take, drop, Result, ok, err,
  ◌>>=◌, ◌>>◌, refuse_if,
}
use sim_platform.Prelude.Words.{byte_of, from_be_2, from_be_4, narrow}
use sim_platform.Halo.Types.{
  protocol_version, header_bytes, max_message_bytes, max_fragment_bytes, max_fragments, MessageKind,
  ProxyError, malformed, oversized, wrong_version, kind_code, kind_of, Message, Fragment,
}

-- The eighteen bytes in front of a fragment's payload.
abbrev pub header : Message → (total index count size : ℕ) → List ℕ → List ℕ
header m total index count size rest =
    b'S'
    ∷ b'H'
    ∷ protocol_version
    ∷ kind_code m.kind
    ∷ byte_of 3 m.session
    ∷ byte_of 2 m.session
    ∷ byte_of 1 m.session
    ∷ byte_of 0 m.session
    ∷ byte_of 3 m.sequence
    ∷ byte_of 2 m.sequence
    ∷ byte_of 1 m.sequence
    ∷ byte_of 0 m.sequence
    ∷ byte_of 1 total
    ∷ byte_of 0 total
    ∷ index
    ∷ count
    ∷ byte_of 1 size
    ∷ byte_of 0 size
    ∷ rest

-- `&message.payload[start..end]` for the fragment of this index.
abbrev pub chunk : List ℕ → ℕ → List ℕ
chunk payload index =
    let start = index * max_fragment_bytes in
    let end = min (start + max_fragment_bytes) (length payload) in
    take (end - start) (drop start payload)

-- One round of the loop over the fragments.
unfoldable pub encode_frame : Message → (total count index : ℕ) → Result ProxyError (List ℕ)
encode_frame m total count index = do
  let payload = chunk m.payload index
  index_byte ← narrow oversized 256 index
  count_byte ← narrow oversized 256 count
  size ← narrow oversized (2 ^ 16) (length payload)
  ok (header m total index_byte count_byte size payload)

-- The loop: `rounds` fragments from `index` on.
unfoldable pub encode_frames :
    Message → (total count index rounds : ℕ) → Result ProxyError (List (List ℕ))
unfolding encode_frame
encode_frames m total count index zero = ok []
encode_frames m total count index (suc rounds) = do
  frame ← encode_frame m total count index
  frames ← encode_frames m total count (index + 1) rounds
  ok (frame ∷ frames)

-- `payload.len().max(1).div_ceil(MAX_FRAGMENT_BYTES)`
abbrev pub fragment_count : List ℕ → ℕ
fragment_count payload = (max (length payload) 1 + (max_fragment_bytes - 1)) / max_fragment_bytes

unfoldable pub encode_message : Message → Result ProxyError (List (List ℕ))
unfolding encode_frames
encode_message m = do
  refuse_if (ltb max_message_bytes (length m.payload)) oversized
  let count = fragment_count m.payload
  refuse_if (ltb max_fragments count) oversized
  total ← narrow oversized (2 ^ 16) (length m.payload)
  encode_frames m total count 0 count

-- `bytes[i]`; the length test in front makes every index that is used valid.
abbrev pub byte_at : List ℕ → ℕ → ℕ
byte_at bytes i = elim (get_elem? bytes i) [ none ↦ 0 | some b ↦ b ]

-- The test on the length and the magic bytes.
abbrev pub has_bad_frame : List ℕ → Bool
has_bad_frame bytes =
    ltb (length bytes) header_bytes
    || ltb (header_bytes + max_fragment_bytes) (length bytes)
    || not (eqb (byte_at bytes 0) b'S' && eqb (byte_at bytes 1) b'H')

-- The test on the counts of the header.
abbrev pub has_bad_counts : (total index count size len : ℕ) → Bool
has_bad_counts total index count size len =
    eqb count 0
    || ltb max_fragments count
    || leb count index
    || ltb max_message_bytes total
    || not (eqb size (len - header_bytes))

unfoldable pub decode_fragment : List ℕ → Result ProxyError Fragment
decode_fragment bytes = do
  refuse_if (has_bad_frame bytes) malformed
  refuse_if (not (eqb (byte_at bytes 2) protocol_version)) wrong_version
  kind ← kind_of (byte_at bytes 3)
  let session = from_be_4 (byte_at bytes 4) (byte_at bytes 5) (byte_at bytes 6) (byte_at bytes 7)
  let sequence = from_be_4 (byte_at bytes 8) (byte_at bytes 9) (byte_at bytes 10) (byte_at bytes 11)
  let total = from_be_2 (byte_at bytes 12) (byte_at bytes 13)
  let index = byte_at bytes 14
  let count = byte_at bytes 15
  let size = from_be_2 (byte_at bytes 16) (byte_at bytes 17)
  refuse_if (has_bad_counts total index count size (length bytes)) malformed
  ok (record {
    kind = kind;
    session = session;
    sequence = sequence;
    index = index;
    count = count;
    total = total;
    payload = drop header_bytes bytes;
  })
