-- ===== src/Csiq/Live.antt =====
-- crates/csiq/src/live.rs: one record per datagram.
use csid.Prelude.{ℕ, ◌≤◌, ◌≡◌, false, not, List, [], ◌∷◌, ◌++◌, arith}
use csid.Prelude.{ltb, ◌==◌, if◌then◌else◌, le→ltb, length, get_or, take, drop, eq_bytes}
use csid.Prelude.Bytes.{le_bytes, of_le_bytes, of_le_bytes-le_bytes}
use mathlib.Core.Path.{ap₂}
use csid.Csiq.Error.{bad_magic, unsupported_version, malformed, Result, ok, err, ◌>>=◌}
use csid.Csiq.Record.{CsiRecord, IsTyped, IsU32, IsU64}
use csid.Csiq.Tlv.Encode.{encode_payload}
use csid.Csiq.Tlv.Decode.{decode_payload}
use csid.Csiq.Tlv.RoundTrip.{restored, decode_payload-encode_payload}

abbrev pub live_magic : List ℕ
live_magic = b'C' ∷ b'L' ∷ []

abbrev pub live_version : ℕ
live_version = 1

unfoldable pub encode : ℕ → ℕ → CsiRecord → List ℕ
encode session_uid seq r =
    ((((live_magic ++ (live_version ∷ [])) ++ le_bytes 8 session_uid) ++ le_bytes 4 seq)
      ++ encode_payload r)

pub record LiveDatagram : Type 0 where
  pub session_uid : ℕ
  pub seq : ℕ
  pub body : CsiRecord

unfoldable pub decode : List ℕ → Result LiveDatagram
decode buf =
    if ltb (length buf) 15
    then err (malformed "live datagram too short")
    else if not (eq_bytes (take 2 buf) live_magic)
    then err (bad_magic (b'C' ∷ b'L' ∷ 0 ∷ 0 ∷ []) (get_or buf 0 0 ∷ get_or buf 1 0 ∷ 0 ∷ 0 ∷ []))
    else if not (get_or buf 2 0 == live_version)
    then err (unsupported_version (get_or buf 2 0))
    else (do
      let session_uid = of_le_bytes (take 8 (drop 3 buf))
      let seq = of_le_bytes (take 4 (drop 11 buf))
      r ← decode_payload (drop 15 buf)
      ok (record { session_uid = session_uid; seq = seq; body = r }))

-- A subscriber that receives the datagram of a record whose fields lie in their Rust types gets
-- the session's uid, the counter and the record as decoding restores it.
pub decode-encode :
    (uid seq : ℕ) (r : CsiRecord)
    → IsU64 uid
    → IsU32 seq
    → IsTyped r
    → decode (encode uid seq r) ≡ ok (record { session_uid = uid; seq = seq; body = restored r })
unfolding decode encode
decode-encode uid seq r hu hs h =
    let p = encode_payload r in
    let long : ltb (length (encode uid seq r)) 15 ≡ false =
      le→ltb (length (encode uid seq r)) 15 (omega arith) in
    rw long (
      rw (decode_payload-encode_payload r h) (
        ap₂ (λ (u s : ℕ). ok (record { session_uid = u; seq = s; body = restored r }))
          (of_le_bytes-le_bytes 8 uid hu) (of_le_bytes-le_bytes 4 seq hs)))

-- A datagram that decodes is 15 bytes or more, starts with the magic and version 1, and carries a
-- payload that decodes to its record; its uid and counter are bytes 3 to 10 and 11 to 14.
pub decode_guards :
    (buf : List ℕ) (d : LiveDatagram)
    → decode buf ≡ ok d
    → (15 ≤ length buf)
      × (take 3 buf ≡ b'C' ∷ b'L' ∷ 1 ∷ [])
      × (d.session_uid ≡ of_le_bytes (take 8 (drop 3 buf)))
      × (d.seq ≡ of_le_bytes (take 4 (drop 11 buf)))
      × (decode_payload (drop 15 buf) ≡ ok d.body)
unfolding decode
decode_guards [] d e = cc
decode_guards (a ∷ []) d e = cc
decode_guards (a ∷ b ∷ []) d e = cc
decode_guards (a ∷ b ∷ c ∷ rest) d e = ground arith
