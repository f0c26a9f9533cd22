-- ===== src/Csiq/Examples.antt =====
-- The record codec, the container, the live datagram and the raw parser on concrete inputs.
use csid.Prelude.{ℕ, ◌≡◌, refl, ◌⊎◌, false, none, some, List, [], ◌∷◌, ◌++◌, arith}
use csid.Prelude.{length, replicate, All}
use csid.Prelude.Int.{ℤ, pos, negsuc}
use csid.Csiq.Error.{ok, err, CsiqError, ◌>>=◌}
use csid.Csiq.Width.{Width}
use csid.Csiq.Width
use csid.Csiq.Bandwidth.{Bandwidth}
use csid.Csiq.Bandwidth
use csid.Csiq.Modulation.{Modulation}
use csid.Csiq.Modulation
use csid.Csiq.RateFlags.{decode_bw_antsel, decode_rnf}
use csid.Csiq.Record.{CsiRecord, default_node, IsTyped, IsU32}
use csid.Csiq.Tlv.Encode.{put_tlv, encode_payload, i16s_to_bytes}
use csid.Csiq.Tlv.Decode.{
  decode_payload, decode_loop, decode_field, read_tlv, initial, finish, i16s_of_chunks,
}
use csid.Csiq.Tlv.Frames.{Field, Fits, frames, apply_fields}
use csid.Csiq.Tlv.RoundTrip.{restored, decode_payload-encode_payload}
use csid.Csiq.Tlv.Robust.{decode_payload_total, decode_payload-eq-ok}
use csid.Csiq.Tlv.Reencode.{renamed_width, reencode}
use csid.Csiq.Container.{Json, Writer, write_file, read_file}
use csid.Csiq.Container.Records.{vec, file}
use csid.Csiq.Container.RoundTrip.{read_file-write_file}
use csid.Csiq.Raw.{RawReader, parse_record_opts, build_record}
use csid.Csiq.Raw.Export.{decode_payload-parse_record_opts}
use csid.Csiq.Unwrap.{push_all, new, push_all-map-low_word}

-- One tone, two chains, an HE label, a NIC temperature below zero, an unknown width.
abbrev sample : CsiRecord
sample = record {
  ftm = 4000000000;
  us = 123456;
  unix_ts_ns = 1700000000000000000;
  rnf = 0x442;
  phy = some (record { modulation = Modulation.he; mcs = 2; nss = 1 });
  bw_antsel = none;
  mono_us = some 77;
  vendor_hdr = none;
  node = record default_node { nic_temp_c = some (negsuc 4); load_m = some 1500 };
  seq = 7;
  nrx = 2;
  ntx = 1;
  ntone = 1;
  rssi = negsuc 42 ∷ negsuc 126 ∷ [];
  src_mac = 0xde ∷ 0xad ∷ 0xbe ∷ 0xef ∷ 0 ∷ 1 ∷ [];
  channel = 36;
  width = Width.unknown 9;
  iq = pos 1 ∷ negsuc 1 ∷ pos 3 ∷ negsuc 3 ∷ [];
}

sample-IsTyped : IsTyped sample
unfolding Modulation.to_code Width.to_code
sample-IsTyped = omega arith

decode_payload-encode_payload_example :
    decode_payload (encode_payload sample) ≡ ok (restored sample)
decode_payload-encode_payload_example = decode_payload-encode_payload sample sample-IsTyped

-- A JSON library whose values are their own text.
abbrev text_json : Json
text_json = record { Value = List ℕ; to_vec = λ v. some v; from_slice = λ b. some b }

sample_fits : IsU32 (length (encode_payload sample))
unfolding encode_payload put_tlv i16s_to_bytes
sample_fits = omega arith

read_file-write_file_example :
    (w : Writer) × (write_file text_json (some (b'{' ∷ b'}' ∷ [])) (sample ∷ sample ∷ []) (vec [])
      ≡ ok w)
    × (w.records ≡ 2)
    × (read_file text_json (file w.inner.written)
        ≡ ok (some (b'{' ∷ b'}' ∷ []), restored sample ∷ restored sample ∷ []))
read_file-write_file_example =
    read_file-write_file text_json (some (b'{' ∷ b'}' ∷ [])) (some (b'{' ∷ b'}' ∷ []))
      (sample ∷ sample ∷ []) (b'{' ∷ b'}' ∷ [], b'{' ∷ b'}' ∷ [], refl, omega arith, refl, refl)
      ((sample-IsTyped, sample_fits), ((sample-IsTyped, sample_fits), tt))

-- The four fields that a payload must have, and one of a type that no version names yet.
abbrev least : List Field
least = (1, 5 ∷ 0 ∷ 0 ∷ 0 ∷ []) ∷ (6, 2 ∷ []) ∷ (7, 1 ∷ []) ∷ (8, 1 ∷ 0 ∷ []) ∷ []

decode_payload_total_example :
    ((r : CsiRecord) × (decode_payload (1 ∷ 9 ∷ 0 ∷ []) ≡ ok r))
    ⊎ ((e : CsiqError) × (decode_payload (1 ∷ 9 ∷ 0 ∷ []) ≡ err e))
decode_payload_total_example = decode_payload_total (1 ∷ 9 ∷ 0 ∷ [])

abbrev least_record : CsiRecord
least_record = record sample {
  ftm = 5;
  us = 0;
  unix_ts_ns = 0;
  rnf = 0;
  phy = none;
  mono_us = none;
  node = default_node;
  seq = 0;
  rssi = [];
  src_mac = replicate 6 0;
  channel = 0;
  width = Width.unknown 0;
  iq = [];
}

abbrev least_bytes : List ℕ
least_bytes =
    1 ∷ 4 ∷ 0 ∷ 0 ∷ 0 ∷ 5 ∷ 0 ∷ 0 ∷ 0 ∷ 6 ∷ 1 ∷ 0 ∷ 0 ∷ 0 ∷ 2 ∷ 7 ∷ 1 ∷ 0 ∷ 0 ∷ 0 ∷ 1 ∷ 8 ∷ 2 ∷ 0
    ∷ 0 ∷ 0 ∷ 1 ∷ 0 ∷ []

least_decodes : decode_payload least_bytes ≡ ok least_record
unfolding decode_payload decode_loop read_tlv decode_field decode_bw_antsel
least_decodes = refl

decode_payload-eq-ok_example :
    (fs : List Field) × (least_bytes ≡ frames fs)
    × All Fits fs
    × ((apply_fields initial fs >>= finish) ≡ ok least_record)
decode_payload-eq-ok_example =
    decode_payload-eq-ok least_bytes least_record (omega arith) least_decodes

reencode_example :
    IsTyped least_record
    × (decode_payload (encode_payload least_record) ≡ ok (renamed_width least_record))
reencode_example = reencode least_bytes least_record (omega arith) least_decodes

-- A header of 96 bytes: tick 5, one chain, one tone, -43 dBm.
abbrev header : List ℕ
header =
    replicate 8 0
    ++ (5 ∷ 0 ∷ 0 ∷ 0 ∷ [])
    ++ replicate 34 0
    ++ (1 ∷ 1 ∷ 0 ∷ 0 ∷ 0 ∷ 0 ∷ 1 ∷ 0 ∷ [])
    ++ replicate 6 0
    ++ (43 ∷ [])
    ++ replicate 31 0
    ++ (0x42 ∷ 0x04 ∷ 0 ∷ 0 ∷ [])

abbrev parsed : CsiRecord
parsed = record least_record {
  rnf = 0x442;
  phy = some (record { modulation = Modulation.he; mcs = 2; nss = 1 });
  bw_antsel = some (record { bandwidth = Bandwidth.w20; antenna_sel = 0 });
  nrx = 1;
  rssi = negsuc 42 ∷ [];
  width = Width.w80;
  iq = pos 1 ∷ negsuc 0 ∷ [];
}

header_parses : parse_record_opts header (1 ∷ 0 ∷ 255 ∷ 255 ∷ []) Width.w80 false ≡ ok parsed
unfolding parse_record_opts build_record i16s_of_chunks decode_rnf decode_bw_antsel
    Modulation.from_rnf_type Bandwidth.from_code
header_parses = refl

decode_payload-parse_record_opts_example :
    IsTyped parsed
    × (parsed.width ≡ Width.w80)
    × (decode_payload (encode_payload parsed) ≡ ok parsed)
unfolding Width.to_code
decode_payload-parse_record_opts_example =
    decode_payload-parse_record_opts header (1 ∷ 0 ∷ 255 ∷ 255 ∷ []) Width.w80 false parsed
      (omega arith) (omega arith) (omega arith) (omega arith) (omega arith) header_parses

abbrev raw_reader : List ℕ → RawReader
raw_reader b = record { inner = file b; width = Width.w80; keep_vendor_hdr = false }

push_all-map-low_word_example :
    push_all new (4000000000 ∷ 100 ∷ 50 ∷ []) ≡ 4000000000 ∷ 4294967396 ∷ 8589934642 ∷ []
push_all-map-low_word_example =
    push_all-map-low_word 4000000000 (4294967396 ∷ 8589934642 ∷ []) (omega arith) (omega arith)
      (omega arith)

abbrev matrix : List (ℤ × ℤ)
matrix = (negsuc 1, pos 1) ∷ (negsuc 3, pos 3) ∷ []
