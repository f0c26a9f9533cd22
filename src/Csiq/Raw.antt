-- ===== src/Csiq/Raw.antt =====
-- crates/csiq/src/raw.rs: the parser of the raw iax vendor-event stream. The rate word's decoders
-- stand in Csiq/RateFlags.
pub mod Framing
pub mod Typed
pub mod Export
use csid.Prelude.{
  ℕ, zero, suc, ◌+◌, ◌-◌, ◌*◌, ◌/◌, ◌%◌, ◌^◌, ◌≤◌, ◌<◌, min, max, ◌≡◌, refl, sym, ap, ◌∙◌, ◌≢◌, ◌↔◌,
  ◌⊎◌, inl, inr, Bool, true, false, not, ◌&&◌, ◌||◌, Option, none, some, List, [], ◌∷◌, ◌++◌, map,
  append-nil, append_assoc, arith,
}
use csid.Prelude.{
  ltb, leb, ◌==◌, if◌then◌else◌, ltb→lt, lt→ltb, le→ltb, le→leb, lt→leb, leb→le, ==_iff, ==_refl,
  Bool-cases, Option-cases, length, get_or, take, drop, replicate, All, length-append, length-take,
  length-drop, length-replicate, take-append-drop, take-append, drop-append, All-append, eq_bytes,
  eq_bytes_refl, eq_bytes→eq,
}
use csid.Prelude.Bytes.{
  IsByte, le_bytes, of_le_bytes, be_bytes, of_be_bytes, length-le_bytes, length-be_bytes,
  le_bytes-IsByte, of_le_bytes-le_bytes, of_be_bytes-be_bytes, of_le_bytes-lt, le_bytes-of_le_bytes,
}
use csid.Prelude.Int.{
  ℤ, pos, negsuc, pos_part, neg_part, sub_ℕ, IsSigned, to_pattern, of_pattern, to_pattern-lt,
  of_pattern-to_pattern, of_pattern-IsSigned,
}
use csid.Csiq.Error.{CsiqError, io, unexpected_eof, malformed, Result, ok, err, stuck, ◌>>=◌, ◌>>◌}
use csid.Csiq.Width.{Width}
use csid.Csiq.Record.{CsiRecord, default_node}
use csid.Csiq.RateFlags.{decode_bw_antsel, decode_rnf}
use csid.Csiq.Stream.{Source, read_exact}
use csid.Csiq.Tlv.Decode.{i16s_of_chunks}

abbrev pub off_ftm : ℕ
off_ftm = 8

abbrev pub off_nrx : ℕ
off_nrx = 46

abbrev pub off_ntx : ℕ
off_ntx = 47

abbrev pub off_ntone : ℕ
off_ntone = 52

abbrev pub off_rssi_a : ℕ
off_rssi_a = 60

abbrev pub off_rssi_b : ℕ
off_rssi_b = 64

abbrev pub off_src_mac : ℕ
off_src_mac = 68

abbrev pub off_seq : ℕ
off_seq = 76

abbrev pub off_us : ℕ
off_us = 88

abbrev pub off_rnf : ℕ
off_rnf = 92

abbrev pub off_mono_us : ℕ
off_mono_us = 200

abbrev pub off_unix_ts_ns : ℕ
off_unix_ts_ns = 208

abbrev pub off_channel : ℕ
off_channel = 216

-- `le_u16`, `le_u32` and `le_u64` at an offset, by their number of bytes; the callers have checked
-- that the bytes are there.
unfoldable pub le_at : ℕ → List ℕ → ℕ → ℕ
le_at n b o = of_le_bytes (take n (drop o b))

-- `-(raw as i16)`.
unfoldable pub rssi_dbm : ℕ → ℤ
rssi_dbm zero = pos 0
rssi_dbm (suc m) = negsuc m

unfoldable pub decode_mono_us : List ℕ → Option ℕ
unfolding le_at
decode_mono_us hdr =
    if ltb (length hdr) (off_mono_us + 8)
    then none
    else let v = le_at 8 hdr off_mono_us in if v == 0 then none else some v

-- The flq extension, which only a header past the channel's offset has.
unfoldable pub read_extension : List ℕ → ℕ × ℕ
unfolding le_at
read_extension hdr =
    if ltb off_channel (length hdr)
    then (le_at 8 hdr off_unix_ts_ns, get_or hdr off_channel 0)
    else (0, 0)

-- The record that the parser builds once the two lengths are checked.
unfoldable pub build_record : List ℕ → List ℕ → Width → Bool → CsiRecord
unfolding le_at rssi_dbm decode_mono_us read_extension
build_record hdr csi width keep_vendor_hdr =
    let nrx = get_or hdr off_nrx 0 in
    let rnf = le_at 4 hdr off_rnf in
    let rssi_all = rssi_dbm (get_or hdr off_rssi_a 0) ∷ rssi_dbm (get_or hdr off_rssi_b 0) ∷ [] in
    record {
      ftm = le_at 4 hdr off_ftm;
      us = le_at 4 hdr off_us;
      unix_ts_ns = (read_extension hdr).0;
      rnf = rnf;
      phy = decode_rnf rnf;
      bw_antsel = decode_bw_antsel rnf;
      mono_us = decode_mono_us hdr;
      vendor_hdr = if keep_vendor_hdr then some hdr else none;
      node = default_node;
      seq = get_or hdr off_seq 0;
      nrx = nrx;
      ntx = get_or hdr off_ntx 0;
      ntone = le_at 2 hdr off_ntone;
      rssi = take (min nrx 2) rssi_all;
      src_mac = take 6 (drop off_src_mac hdr);
      channel = (read_extension hdr).1;
      width = width;
      iq = i16s_of_chunks csi;
    }

unfoldable pub parse_record_opts : List ℕ → List ℕ → Width → Bool → Result CsiRecord
parse_record_opts hdr csi width keep_vendor_hdr =
    if ltb (length hdr) (off_rnf + 4)
    then err (malformed "header shorter than base fields")
    else if not (length csi % 2 == 0)
    then err (malformed "odd CSI byte length")
    else ok (build_record hdr csi width keep_vendor_hdr)

unfoldable pub parse_record : List ℕ → List ℕ → Width → Result CsiRecord
parse_record hdr csi width = parse_record_opts hdr csi width false

pub record RawReader : Type 0 where
  pub inner : Source
  pub width : Width
  pub keep_vendor_hdr : Bool

-- The parts of a message body: the header and the CSI payload, past the length checks.
unfoldable pub split_body : List ℕ → Result (List ℕ × List ℕ)
split_body body =
    if ltb (length body) 4
    then err (malformed "message body too short for hdr_len")
    else let hdr_len = of_be_bytes (take 4 body) in
      let hdr_end = 4 + hdr_len in
      if ltb (length body) (hdr_end + 4)
      then err (malformed "message body too short for header + csi_len")
      else let hdr = take hdr_len (drop 4 body) in
        let csi_len = of_be_bytes (take 4 (drop hdr_end body)) in
        let csi_start = hdr_end + 4 in
        if ltb (length body) (csi_start + csi_len)
        then err (malformed "message body too short for csi payload")
        else ok (hdr, take csi_len (drop csi_start body))

-- `read_be_u32`, where an end of file before the fourth byte is no error and gives no length.
unfoldable pub len_or_end : Result (List ℕ × Source) → Result (Option (ℕ × Source))
len_or_end (ok (b, src)) = ok (some (of_be_bytes b, src))
len_or_end (err (io unexpected_eof)) = ok none
len_or_end (err e) = err e
len_or_end stuck = stuck

unfoldable pub read_message :
    RawReader → Option (ℕ × Source) → Result (Option CsiRecord × RawReader)
unfolding split_body
read_message rd none = ok (none, rd)
read_message rd (some (msg_len, src1)) = do
  (body, src2) ← read_exact msg_len src1
  (hdr, csi) ← split_body body
  r ← parse_record_opts hdr csi rd.width rd.keep_vendor_hdr
  ok (some r, record rd { inner = src2 })

-- `RawReader::next_record`.
unfoldable pub next_record : RawReader → Result (Option CsiRecord × RawReader)
unfolding len_or_end read_message
next_record rd = do t ← len_or_end (read_exact 4 rd.inner); read_message rd t
