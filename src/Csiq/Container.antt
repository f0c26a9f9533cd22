-- ===== src/Csiq/Container.antt =====
-- crates/csiq/src/container.rs and the constants of crates/csiq/src/lib.rs: the CSIQ file. A session
-- block is a value of serde_json, which is a parameter.
pub mod Records
pub mod RoundTrip
use csid.Prelude.{
  ℕ, zero, suc, ◌+◌, ◌-◌, ◌*◌, ◌/◌, ◌%◌, ◌^◌, ◌≤◌, ◌<◌, min, max, ◌≡◌, refl, sym, ap, ◌∙◌, ◌≢◌, ◌↔◌,
  ◌⊎◌, inl, inr, Bool, true, false, not, ◌&&◌, ◌||◌, Option, none, some, List, [], ◌∷◌, ◌++◌, map,
  append-nil, append_assoc, arith,
}
use csid.Prelude.{
  ltb, leb, ◌==◌, if◌then◌else◌, ltb→lt, lt→ltb, le→ltb, le→leb, lt→leb, leb→le, ==_iff, ==_refl,
  Bool-cases, Option-cases, length, get_or, take, drop, replicate, All, length-append, length-take,
  length-drop, length-replicate, take-append-drop, take-append, drop-append, All-append, eq_bytes,
  eq_bytes_refl, eq_bytes→eq,
}
use csid.Prelude.Bytes.{
  IsByte, le_bytes, of_le_bytes, be_bytes, of_be_bytes, length-le_bytes, length-be_bytes,
  le_bytes-IsByte, of_le_bytes-le_bytes, of_be_bytes-be_bytes, of_le_bytes-lt, le_bytes-of_le_bytes,
}
use csid.Prelude.Int.{
  ℤ, pos, negsuc, pos_part, neg_part, sub_ℕ, IsSigned, to_pattern, of_pattern, to_pattern-lt,
  of_pattern-to_pattern, of_pattern-IsSigned,
}
use csid.Csiq.Error.{
  IoErrorKind, unexpected_eof, other, CsiqError, io, bad_magic, unsupported_version, malformed,
  session, Result, ok, err, stuck, ◌>>=◌, ◌>>◌, ok_or,
}
use csid.Csiq.Record.{CsiRecord}
use csid.Csiq.Stream.{Source, read_exact, skip_bytes, Sink, write_all}
use csid.Csiq.Tlv.Encode.{encode_payload}
use csid.Csiq.Tlv.Decode.{decode_payload}

abbrev pub magic : List ℕ
magic = b'C' ∷ b'S' ∷ b'I' ∷ b'Q' ∷ []

abbrev pub format_version : ℕ
format_version = 1

abbrev pub record_tag : ℕ
record_tag = 0xa1

abbrev pub flag_session : ℕ
flag_session = 1

-- serde_json, as the container uses it: a value is printed, and bytes are parsed. What parsing makes
-- of a printed value is left open.
pub record Json : Type 1 where
  pub Value : Type 0
  pub to_vec : Value → Option (List ℕ)
  pub from_slice : List ℕ → Option Value

pub record Writer : Type 0 where
  pub inner : Sink
  pub records : ℕ

unfoldable pub write_record : CsiRecord → Writer → Result Writer
write_record r w = do
  let payload = encode_payload r
  s1 ← write_all (record_tag ∷ []) w.inner
  s2 ← write_all (le_bytes 4 (length payload % 2 ^ 32)) s1
  s3 ← write_all payload s2
  ok (record { inner = s3; records = w.records + 1 })

unfoldable pub read_u16 : Source → Result (ℕ × Source)
read_u16 src = do (b, src') ← read_exact 2 src; ok (of_le_bytes b, src')

unfoldable pub read_u32 : Source → Result (ℕ × Source)
read_u32 src = do (b, src') ← read_exact 4 src; ok (of_le_bytes b, src')

-- The one-byte read of a tag: the end of the file is no error, and gives no tag.
unfoldable pub tag_or_end : Result (List ℕ × Source) → Result (Option (ℕ × Source))
tag_or_end (ok (tag, src)) = ok (some (get_or tag 0 0, src))
tag_or_end (err (io unexpected_eof)) = ok none
tag_or_end (err e) = err e
tag_or_end stuck = stuck

unfoldable pub read_framed : Option (ℕ × Source) → Source → Result (Option CsiRecord × Source)
unfolding read_u32
read_framed none src = ok (none, src)
read_framed (some (tag, src)) _ =
    if tag == record_tag
    then (do
      (len, src2) ← read_u32 src
      (payload, src3) ← read_exact len src2
      r ← decode_payload payload
      ok (some r, src3))
    else err (malformed "bad record tag (stream desync)")

-- `Reader::next_record`, on the reader's source.
unfoldable pub next_record : Source → Result (Option CsiRecord × Source)
unfolding tag_or_end read_framed
next_record src = do t ← tag_or_end (read_exact 1 src); read_framed t src

-- The iterator, collected up to its end or its first error; each record takes five bytes at least.
unfoldable pub read_records : ℕ → Source → Result (List CsiRecord)
read_records zero src = stuck
read_records (suc fuel) src = do
  (found, rest) ← next_record src
  elim found [ none ↦ ok [] | some r ↦ do rs ← read_records fuel rest; ok (r ∷ rs) ]

-- Records written one after the other.
unfoldable pub write_records : List CsiRecord → Writer → Result Writer
write_records [] w = ok w
write_records (r ∷ rs) w = do w' ← write_record r w; write_records rs w'

module _ (json : Json) where
  open json use {Value, to_vec, from_slice}

  -- The flags and the bytes of the session block.
  unfoldable pub session_block : Option Value → Result (ℕ × List ℕ)
  session_block none = ok (0, [])
  session_block (some v) = do body ← ok_or (to_vec v) session; ok (flag_session, body)

  -- `Writer::new`.
  unfoldable pub new_writer : Option Value → Sink → Result Writer
  unfolding session_block
  new_writer v sink = do
    s1 ← write_all magic sink
    s2 ← write_all (le_bytes 2 format_version) s1
    (flags, body) ← session_block v
    s3 ← write_all (le_bytes 2 flags) s2
    s4 ← write_all (le_bytes 4 (length body % 2 ^ 32)) s3
    s5 ← write_all body s4
    ok (record { inner = s5; records = 0 })

  unfoldable pub read_session : ℕ → ℕ → Source → Result (Option Value × Source)
  read_session flags len src =
      if flags % 2 == 0
      then (if ltb 0 len then (do src' ← skip_bytes len src; ok (none, src')) else ok (none, src))
      else (do
        (body, src') ← read_exact len src
        v ← ok_or (from_slice body) session
        ok (some v, src'))

  -- `Reader::new`: the session and the source behind the header.
  unfoldable pub new_reader : Source → Result (Option Value × Source)
  unfolding read_u16 read_u32 read_session
  new_reader src = do
    (found, src1) ← read_exact 4 src
    if eq_bytes found magic
        then (do
          (version, src2) ← read_u16 src1
          if version == format_version
              then (do
                (flags, src3) ← read_u16 src2
                (len, src4) ← read_u32 src3
                read_session flags len src4)
              else err (unsupported_version version))
        else err (bad_magic magic found)

  -- A file written whole, and read whole.
  unfoldable pub write_file : Option Value → List CsiRecord → Sink → Result Writer
  write_file v rs sink = do w ← new_writer v sink; write_records rs w

  unfoldable pub read_file : Source → Result (Option Value × List CsiRecord)
  read_file src = do
    (v, src1) ← new_reader src
    rs ← read_records (suc (length src1.bytes)) src1
    ok (v, rs)
