-- ===== src/Halo/Codec/Laws.antt =====
-- What `encode_message` produces, and that `decode_fragment` reads each fragment back.
use sim_platform.Prelude.{
  ℕ, zero, suc, ◌+◌, ◌-◌, ◌*◌, ◌^◌, ◌≤◌, ◌<◌, min, false, not, ◌≡◌, refl, arith, List, [], ◌∷◌,
  ◌++◌, ltb, eqb, length, take, drop, length-take, length-drop, take-add, take_past_end, ok,
  refuse_if_rule, bind_rule, OnOk, OnOk-ok, refuse_if-false, lt→ltb, ◌∙◌,
}
use sim_platform.Prelude.Words.{from_be_2, from_be_2-byte_of, from_be_4-byte_of}
use sim_platform.Halo.Types.{
  protocol_version, header_bytes, wrong_version, max_message_bytes, max_fragment_bytes,
  max_fragments, button, sensor, link_state, display, clear, MessageKind, malformed, oversized,
  kind_code, kind_of, Message, Fragment,
}
use sim_platform.Halo.Codec.{
  header, chunk, encode_frame, encode_frames, fragment_count, encode_message, byte_at,
  has_bad_frame, has_bad_counts, decode_fragment,
}

kind_of-kind_code : (k : MessageKind) → kind_of (kind_code k) ≡ ok k
unfolding kind_of
kind_of-kind_code button = refl
kind_of-kind_code sensor = refl
kind_of-kind_code link_state = refl
kind_of-kind_code display = refl
kind_of-kind_code clear = refl

-- What a frame says, as a decoded fragment.
abbrev pub fragment_of : Message → (index : ℕ) → Fragment
fragment_of m index = record {
  kind = m.kind;
  session = m.session;
  sequence = m.sequence;
  index = index;
  count = fragment_count m.payload;
  total = length m.payload;
  payload = chunk m.payload index;
}

-- The fields that the wire format can carry.
pub record IsWire (m : Message) : Type 0 where
  pub session_fits : m.session < 2 ^ 32
  pub sequence_fits : m.sequence < 2 ^ 32
  pub payload_fits : length m.payload ≤ max_message_bytes

pub fragment_count_bounds :
    (payload : List ℕ)
    → length payload ≤ max_message_bytes
    → (0 < fragment_count payload) × (fragment_count payload ≤ 12)
fragment_count_bounds payload h = omega arith

pub length-chunk :
    (payload : List ℕ) (index : ℕ)
    → length (chunk payload index)
      ≡ min (min (index * 180 + 180) (length payload) - index * 180) (length payload - index * 180)
length-chunk payload index = omega (
  arith,
  length-take (min (index * 180 + 180) (length payload) - index * 180) (drop (index * 180) payload),
  length-drop (index * 180) payload,
)

abbrev pub frame_of : Message → ℕ → List ℕ
frame_of m index =
    header m (length m.payload) index (fragment_count m.payload) (length (chunk m.payload index))
      (chunk m.payload index)

module _ (m : Message) (total index count : ℕ) (payload : List ℕ) where
  abbrev carried : Fragment
  carried = record {
    kind = m.kind;
    session = m.session;
    sequence = m.sequence;
    index = index;
    count = count;
    total = total;
    payload = payload;
  }

  decode_fragment-header :
      m.session < 2 ^ 32
      → m.sequence < 2 ^ 32
      → total ≤ max_message_bytes
      → index < count
      → count ≤ max_fragments
      → length payload ≤ max_fragment_bytes
      → decode_fragment (header m total index count (length payload) payload) ≡ ok carried
  unfolding decode_fragment
  decode_fragment-header session_fits sequence_fits total_fits index_fits count_fits payload_fits =
      let session = from_be_4-byte_of m.session session_fits in
      let sequence = from_be_4-byte_of m.sequence sequence_fits in
      let total_back = from_be_2-byte_of total (omega arith) in
      let size_back = from_be_2-byte_of (length payload) (omega arith) in
      rw (kind_of-kind_code m.kind, session, sequence, total_back, size_back)
        (refuse_if-false (has_bad_frame (header m total index count (length payload) payload))
            malformed _ (ground arith)
          ∙ refuse_if-false
              (has_bad_counts total index count (length payload)
                (length (header m total index count (length payload) payload)))
              malformed _ (ground arith))

fragment_index_bounds :
    (m : Message) (index : ℕ)
    → IsWire m
    → index < fragment_count m.payload
    → (fragment_count m.payload ≤ max_fragments) × (length (chunk m.payload index) ≤ 180)
fragment_index_bounds m index w h = omega (arith, length-chunk m.payload index, w.payload_fits)

pub decode_fragment-frame_of :
    (m : Message) (index : ℕ)
    → IsWire m
    → index < fragment_count m.payload
    → decode_fragment (frame_of m index) ≡ ok (fragment_of m index)
decode_fragment-frame_of m index w h =
    let (few, short) = fragment_index_bounds m index w h in
    decode_fragment-header m (length m.payload) index (fragment_count m.payload)
      (chunk m.payload index) w.session_fits w.sequence_fits w.payload_fits h few short

encode_frame-frame_of :
    (m : Message) (index : ℕ)
    → IsWire m
    → index < fragment_count m.payload
    → encode_frame m (length m.payload) (fragment_count m.payload) index ≡ ok (frame_of m index)
unfolding encode_frame
encode_frame-frame_of m index w h =
    let (few, short) = fragment_index_bounds m index w h in
    rw (
      lt→ltb index 256 (omega arith),
      lt→ltb (fragment_count m.payload) 256 (omega arith),
      lt→ltb (length (chunk m.payload index)) (2 ^ 16) (omega arith),
    )

-- The frames from an index on.
abbrev pub frames_from : Message → (index rounds : ℕ) → List (List ℕ)
frames_from m index zero = []
frames_from m index (suc rounds) = frame_of m index ∷ frames_from m (index + 1) rounds

encode_frames-frames_from :
    (m : Message) (index rounds : ℕ)
    → IsWire m
    → index + rounds ≤ fragment_count m.payload
    → encode_frames m (length m.payload) (fragment_count m.payload) index rounds
      ≡ ok (frames_from m index rounds)
unfolding encode_frames
encode_frames-frames_from m index zero w h = refl
encode_frames-frames_from m index (suc rounds) w h = rw (
  encode_frame-frame_of m index w (omega arith),
  encode_frames-frames_from m (index + 1) rounds w (omega arith),
)

pub encode_message-frames_from :
    (m : Message) → IsWire m → encode_message m ≡ ok (frames_from m 0 (fragment_count m.payload))
unfolding encode_message
encode_message-frames_from m w =
    let fits = w.payload_fits in
    let few = fragment_count_bounds m.payload fits in
    let small : length m.payload < 2 ^ 16 = omega arith in
    refuse_if-false (ltb max_message_bytes (length m.payload)) oversized _ (ground arith)
    ∙ refuse_if-false (ltb max_fragments (fragment_count m.payload)) oversized _ (ground arith)
    ∙ rw (lt→ltb (length m.payload) (2 ^ 16) small)
        (encode_frames-frames_from m 0 (fragment_count m.payload) w (omega arith))

-- The bytes before a fragment and its own are those before the next.
pub take-chunk :
    (payload : List ℕ) (index : ℕ)
    → index * 180 ≤ length payload
    → take (index * 180) payload ++ chunk payload index ≡ take ((index + 1) * 180) payload
take-chunk payload index h =
    take-add (index * 180) (min (index * 180 + 180) (length payload) - index * 180) payload
    ∙ take_past_end (index * 180 + (min (index * 180 + 180) (length payload) - index * 180))
        ((index + 1) * 180) payload (omega arith)

pub fragment_starts_inside :
    (payload : List ℕ) (index : ℕ) → index < fragment_count payload → index * 180 ≤ length payload
fragment_starts_inside payload index h = omega arith

pub fragments_reach_end : (payload : List ℕ) → length payload ≤ fragment_count payload * 180
fragments_reach_end payload = omega arith

-- What every decoded fragment satisfies.
pub record IsFragment (f : Fragment) : Type 0 where
  pub index_inside : f.index < f.count
  pub few : f.count ≤ max_fragments
  pub total_fits : f.total ≤ max_message_bytes
  pub payload_fits : length f.payload ≤ max_fragment_bytes

has_bad_counts_bounds :
    (total index count size len : ℕ)
    → has_bad_counts total index count size len ≡ false
    → (index < count) × (count ≤ max_fragments) × (total ≤ max_message_bytes)
has_bad_counts_bounds total index count size len e = ground arith

length-drop_header :
    (bytes : List ℕ)
    → has_bad_frame bytes ≡ false
    → length (drop header_bytes bytes) ≤ max_fragment_bytes
length-drop_header bytes e =
    let fits : length bytes ≤ 198 = ground arith in omega (arith, length-drop 18 bytes)

pub decode_fragment-OnOk : (bytes : List ℕ) → OnOk IsFragment (decode_fragment bytes)
unfolding decode_fragment
decode_fragment-OnOk bytes =
    refuse_if_rule (OnOk IsFragment) (has_bad_frame bytes) malformed _ (λ _. tt)
      λ frame.
        refuse_if_rule (OnOk IsFragment) (not (eqb (byte_at bytes 2) protocol_version))
          wrong_version _ (λ _. tt)
          λ _.
            bind_rule (OnOk IsFragment) (kind_of (byte_at bytes 3)) _
              (λ kind _.
                refuse_if_rule (OnOk IsFragment)
                  (has_bad_counts (from_be_2 (byte_at bytes 12) (byte_at bytes 13))
                    (byte_at bytes 14) (byte_at bytes 15)
                    (from_be_2 (byte_at bytes 16) (byte_at bytes 17)) (length bytes))
                  malformed _ (λ _. tt)
                  λ counts.
                    let (inside, few, fits) = has_bad_counts_bounds _ _ _ _ _ counts in
                    record {
                      index_inside = inside;
                      few = few;
                      total_fits = fits;
                      payload_fits = length-drop_header bytes frame;
                    })
              (λ e _. tt)

pub decode_fragment-IsFragment :
    (bytes : List ℕ) (f : Fragment) → decode_fragment bytes ≡ ok f → IsFragment f
decode_fragment-IsFragment bytes f e =
    OnOk-ok IsFragment (decode_fragment bytes) (decode_fragment-OnOk bytes) e
