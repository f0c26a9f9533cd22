-- ===== src/Collector/Proto.antt =====
-- crates/collector/src/proto.rs: the MNDP datagram as the collector reads and answers it. The
-- payload of a hello is JSON for serde, and is not part of the model.
pub mod Reply
use csid.Csid.Timesync.Payload.{hex_text}
use csid.Prelude.{
  ℕ, zero, suc, ◌+◌, ◌-◌, ◌*◌, ◌/◌, ◌%◌, ◌^◌, ◌≤◌, ◌<◌, min, max, ◌≡◌, refl, sym, ap, ◌∙◌, ◌≢◌, ◌↔◌,
  ◌⊎◌, inl, inr, Bool, true, false, not, ◌&&◌, ◌||◌, Option, none, some, List, [], ◌∷◌, ◌++◌, map,
  append-nil, append_assoc, arith,
}
use csid.Prelude.{
  ltb, leb, ◌==◌, if◌then◌else◌, ltb→lt, lt→ltb, le→ltb, le→leb, lt→leb, leb→le, ==_iff, ==_refl,
  Bool-cases, Option-cases, length, get_elem?, get_or, range_map, length-range_map,
  get_elem?-range_map, get_elem?-append_right, get_elem?-append_left, take, drop, replicate, All,
  length-append, length-take, length-drop, length-replicate, take-append-drop, take-append,
  drop-append, All-append, eq_bytes, eq_bytes_refl, eq_bytes→eq,
}
use csid.Prelude.Bytes.{
  IsByte, le_bytes, of_le_bytes, be_bytes, of_be_bytes, length-le_bytes, length-be_bytes,
  le_bytes-IsByte, of_le_bytes-le_bytes, of_be_bytes-be_bytes, of_le_bytes-lt, le_bytes-of_le_bytes,
  get_or-IsByte,
}
use csid.Prelude.Int.{
  ℤ, pos, negsuc, pos_part, neg_part, sub_ℕ, IsSigned, to_pattern, of_pattern, to_pattern-lt,
  of_pattern-to_pattern, of_pattern-IsSigned,
}

abbrev pub magic : List ℕ
magic = b'M' ∷ b'N' ∷ b'D' ∷ b'P' ∷ []

abbrev pub version : ℕ
version = 1

abbrev pub header_size : ℕ
header_size = 48

abbrev pub type_data : ℕ
type_data = 1

abbrev pub type_time_request : ℕ
type_time_request = 2

abbrev pub type_time_response : ℕ
type_time_response = 3

abbrev pub type_session_hello : ℕ
type_session_hello = 4

pub record Packet : Type 0 where
  pub packet_version : ℕ
  pub kind : ℕ
  pub session : List ℕ
  pub sequence : ℕ
  pub t_mono_ns : ℕ
  pub t_wall_ms : ℕ
  pub payload : List ℕ

-- The messages that `Packet::decode` bails with.
pub data Refusal : Type 0 where
  short_datagram : ℕ → Refusal
  bad_magic : Refusal
  overruns : ℕ → Refusal

pub data Decoded : Type 0 where
  packet : Packet → Decoded
  refused : Refusal → Decoded

unfoldable pub payload_len : List ℕ → ℕ
payload_len bytes = of_be_bytes (get_or bytes 44 0 ∷ get_or bytes 45 0 ∷ [])

-- The packet that lies in the bytes.
unfoldable pub parsed : List ℕ → Packet
unfolding payload_len
parsed bytes = record {
  packet_version = get_or bytes 4 0;
  kind = get_or bytes 5 0;
  session = take 16 (drop 8 bytes);
  sequence = of_be_bytes (take 4 (drop 24 bytes));
  t_mono_ns = of_be_bytes (take 8 (drop 28 bytes));
  t_wall_ms = of_be_bytes (take 8 (drop 36 bytes));
  payload = take (payload_len bytes) (drop header_size bytes);
}

unfoldable pub decode : List ℕ → Decoded
unfolding payload_len parsed
decode bytes =
    if ltb (length bytes) header_size
    then refused (short_datagram (length bytes))
    else if not (eq_bytes (take 4 bytes) magic)
    then refused bad_magic
    else if ltb (length bytes) (header_size + payload_len bytes)
    then refused (overruns (payload_len bytes))
    else packet (parsed bytes)

unfoldable pub session_uuid : Packet → List ℕ
session_uuid p =
    let h : ℕ → ℕ → List ℕ = λ from to. hex_text (take (to - from) (drop from p.session)) in
    h 0 4 ++ (b'-' ∷ (h 4 6 ++ (b'-' ∷ (h 6 8 ++ (b'-' ∷ (h 8 10 ++ (b'-' ∷ h 10 16)))))))

-- `out[i..i + n].copy_from_slice(bs)`.
abbrev pub put_at : ℕ → List ℕ → List ℕ → List ℕ
put_at i bs out = take i out ++ (bs ++ drop (i + length bs) out)

unfoldable pub encode_time_response : List ℕ → ℕ → ℕ → ℕ → List ℕ
encode_time_response session sequence t2_ns t3_ns =
    let out = replicate (header_size + 16) 0 in
    let out1 = put_at 0 magic out in
    let out2 = put_at 4 (version ∷ []) out1 in
    let out3 = put_at 5 (type_time_response ∷ []) out2 in
    let out4 = put_at 8 session out3 in
    let out5 = put_at 24 (be_bytes 4 sequence) out4 in
    let out6 = put_at 28 (be_bytes 8 t3_ns) out5 in
    let out7 = put_at 36 (be_bytes 8 (t3_ns / 1000000)) out6 in
    let out8 = put_at 44 (be_bytes 2 16) out7 in
    let out9 = put_at header_size (be_bytes 8 t2_ns) out8 in
    put_at (header_size + 8) (be_bytes 8 t3_ns) out9
