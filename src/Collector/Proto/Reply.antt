-- ===== src/Collector/Proto/Reply.antt =====
-- The collector's packets, crates/collector/src/proto.rs, beside the recogniser of
-- crates/csid/src/timesync/payload.rs, which reads the same datagrams off the air.
use mathlib.Core.Path.{subst}
use csid.Csid.Timesync.Payload.{Stamp, mndp_stamp, uuid_string, saturating_mul, app_frame, mono}
use csid.Collector.Proto.{
  version, Packet, packet, magic, header_size, type_time_response, payload_len, parsed, decode,
  session_uuid, encode_time_response,
}
use csid.Prelude.{
  ℕ, ◌+◌, ◌/◌, ◌^◌, ◌≤◌, ◌<◌, ◌≡◌, refl, ◌∙◌, ◌≢◌, true, false, none, some, List, [], ◌∷◌, ◌++◌,
  arith,
}
use csid.Prelude.{ltb, ◌==◌, if◌then◌else◌, le→ltb, length, get_or, take, eq_bytes}
use csid.Prelude.Bytes.{be_bytes, of_be_bytes, of_be_bytes-be_bytes}

packet-injective : {p q : Packet} → packet p ≡ packet q → p ≡ q
packet-injective e = cc

-- The stamp with the fields of a packet: the phone's monotonic time, its wall clock in nanoseconds.
abbrev pub app_stamp : List ℕ → Packet → Stamp
app_stamp mac p = record {
  kind = app_frame;
  tx_id = session_uuid p;
  tx_mac = mac;
  seq = p.sequence;
  tx_stamp_ns = p.t_mono_ns;
  tx_clock = mono;
  tx_wall_ns = if ltb 0 p.t_wall_ms then some (saturating_mul p.t_wall_ms 1000000) else none;
}

stamp-parsed :
    (bytes mac : List ℕ)
    → header_size ≤ length bytes
    → eq_bytes (take 4 bytes) magic ≡ true
    → get_or bytes 5 0 ≢ 3
    → mndp_stamp bytes mac ≡ some (app_stamp mac (parsed bytes))
unfolding mndp_stamp parsed session_uuid uuid_string
stamp-parsed bytes mac long same other =
    let enough : ltb (length bytes) 48 ≡ false = le→ltb (length bytes) 48 long in
    let kind : (get_or bytes 5 0 == 3) ≡ false = ground arith in rw (enough, same, kind) refl

decode-packet :
    (bytes : List ℕ) (p : Packet)
    → decode bytes ≡ packet p
    → (header_size ≤ length bytes)
      × (eq_bytes (take 4 bytes) magic ≡ true)
      × (header_size + payload_len bytes ≤ length bytes)
      × (parsed bytes ≡ p)
unfolding decode
decode-packet bytes p h =
    (ground arith, ground arith, ground arith, packet-injective (ground arith))

-- A packet that the collector accepts, and that is no TIME_RESPONSE, is a stamp for the
-- recogniser too: with the packet's session as its text, its counter and its monotonic time.
pub mndp_stamp-decode :
    (bytes mac : List ℕ) (p : Packet)
    → decode bytes ≡ packet p
    → p.kind ≢ 3
    → mndp_stamp bytes mac ≡ some (app_stamp mac p)
unfolding parsed
mndp_stamp-decode bytes mac p h ne =
    let (long, same, _, is_parsed) = decode-packet bytes p h in
    subst (λ (q : Packet). q.kind ≢ 3 → mndp_stamp bytes mac ≡ some (app_stamp mac q)) is_parsed
      (λ other. stamp-parsed bytes mac long same other) ne

-- The reply to a request, as the phone's side of the protocol reads it.
abbrev pub reply : List ℕ → ℕ → ℕ → ℕ → Packet
reply session sequence t2_ns t3_ns = record {
  packet_version = version;
  kind = type_time_response;
  session = session;
  sequence = sequence;
  t_mono_ns = t3_ns;
  t_wall_ms = t3_ns / 1000000;
  payload = be_bytes 8 t2_ns ++ be_bytes 8 t3_ns;
}

decode-reply :
    (session : List ℕ) (sequence t2_ns t3_ns : ℕ)
    → length session ≡ 16
    → decode (encode_time_response session sequence t2_ns t3_ns)
      ≡ packet (record {
        packet_version = version;
        kind = type_time_response;
        session = session;
        sequence = of_be_bytes (be_bytes 4 sequence);
        t_mono_ns = of_be_bytes (be_bytes 8 t3_ns);
        t_wall_ms = of_be_bytes (be_bytes 8 (t3_ns / 1000000));
        payload = be_bytes 8 t2_ns ++ be_bytes 8 t3_ns;
      })
unfolding decode payload_len parsed encode_time_response be_bytes of_be_bytes
decode-reply
      (s0 ∷ s1 ∷ s2 ∷ s3 ∷ s4 ∷ s5 ∷ s6 ∷ s7 ∷ s8 ∷ s9 ∷ s10 ∷ s11 ∷ s12 ∷ s13 ∷ s14 ∷ s15 ∷ []) q
      t2 t3 _ =
    refl
decode-reply session q t2 t3 h = absurd (omega arith)

-- A reply carries the two stamps of the collector, and echoes the session and the counter.
pub decode-encode_time_response :
    (session : List ℕ) (sequence t2_ns t3_ns : ℕ)
    → length session ≡ 16
    → sequence < 2 ^ 32
    → t3_ns < 2 ^ 64
    → decode (encode_time_response session sequence t2_ns t3_ns)
      ≡ packet (reply session sequence t2_ns t3_ns)
decode-encode_time_response session q t2 t3 h hq h3 =
    let small : t3 / 1000000 < 2 ^ 64 = omega arith in
    decode-reply session q t2 t3 h
    ∙ rw
        (
          of_be_bytes-be_bytes 4 q hq,
          of_be_bytes-be_bytes 8 t3 h3,
          of_be_bytes-be_bytes 8 (t3 / 1000000) small,
        )
        refl

-- The recogniser takes no reply of the collector for a stamp of the phone.
pub mndp_stamp-encode_time_response :
    (session mac : List ℕ) (sequence t2_ns t3_ns : ℕ)
    → length session ≡ 16
    → mndp_stamp (encode_time_response session sequence t2_ns t3_ns) mac ≡ none
unfolding mndp_stamp encode_time_response be_bytes
mndp_stamp-encode_time_response
      (s0 ∷ s1 ∷ s2 ∷ s3 ∷ s4 ∷ s5 ∷ s6 ∷ s7 ∷ s8 ∷ s9 ∷ s10 ∷ s11 ∷ s12 ∷ s13 ∷ s14 ∷ s15 ∷ []) mac
      q t2 t3 _ =
    refl
mndp_stamp-encode_time_response session mac q t2 t3 h = absurd (omega arith)
