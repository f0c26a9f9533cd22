-- ===== src/Csiq/Container/Records.antt =====
-- The records of a CSIQ file: what the writer leaves in a `Vec<u8>`, and what the reader makes of it.
use csid.Prelude.{
  ℕ, zero, suc, ◌+◌, ◌%◌, ◌<◌, ◌≡◌, refl, sym, ap, ◌∙◌, none, some, List, [], ◌∷◌, ◌++◌, map,
  append-nil, append_assoc, arith,
}
use csid.Prelude.{length, All, length-append}
use csid.Prelude.Bytes.{le_bytes, of_le_bytes-le_bytes}
use mathlib.Core.Path.{ap₂}
use csid.Csiq.Error.{unexpected_eof, ok}
use csid.Csiq.Record.{CsiRecord, IsTyped, IsU32}
use csid.Csiq.Stream.{Source, read_exact, Sink, write_all, read_exact-append}
use csid.Csiq.Tlv.Encode.{encode_payload}
use csid.Csiq.Tlv.RoundTrip.{restored, decode_payload-encode_payload}
use csid.Csiq.Container.{
  record_tag, write_record, write_records, read_u16, read_u32, next_record, read_records,
}

-- A vector with these bytes, and a file of these bytes.
abbrev pub vec : List ℕ → Sink
vec w = record { written = w; room = none }

abbrev pub file : List ℕ → Source
file b = record { bytes = b; ending = unexpected_eof }

-- A record that the container can frame.
abbrev pub IsFramed : CsiRecord → Type 0
IsFramed r = IsTyped r × IsU32 (length (encode_payload r))

unfoldable pub record_bytes : CsiRecord → List ℕ
record_bytes r = record_tag ∷ (le_bytes 4 (length (encode_payload r)) ++ encode_payload r)

unfoldable pub records_bytes : List CsiRecord → List ℕ
records_bytes [] = []
records_bytes (r ∷ rs) = record_bytes r ++ records_bytes rs

length-record_bytes : (r : CsiRecord) → length (record_bytes r) ≡ 5 + length (encode_payload r)
unfolding record_bytes
length-record_bytes r = omega arith

write_record-Vec :
    (r : CsiRecord) (w : List ℕ) (n : ℕ)
    → IsU32 (length (encode_payload r))
    → write_record r (record { inner = vec w; records = n })
      ≡ ok (record { inner = vec (w ++ record_bytes r); records = n + 1 })
unfolding write_record record_bytes write_all
write_record-Vec r w n h =
    let fits : length (encode_payload r) % 4294967296 ≡ length (encode_payload r) = omega arith in
    rw (fits, append_assoc, append_assoc)

pub write_records-Vec :
    (rs : List CsiRecord) (w : List ℕ) (n : ℕ)
    → All IsFramed rs
    → write_records rs (record { inner = vec w; records = n })
      ≡ ok (record { inner = vec (w ++ records_bytes rs); records = n + length rs })
unfolding write_records records_bytes
write_records-Vec [] w n h =
    ap₂ (λ b (m : ℕ). ok (record { inner = vec b; records = m })) (sym (append-nil w)) (omega arith)
write_records-Vec (r ∷ rs) w n (h, hs) = rw (write_record-Vec r w n h.1) (
    write_records-Vec rs (w ++ record_bytes r) (n + 1) hs
    ∙ ap₂ (λ b (m : ℕ). ok (record { inner = vec b; records = m }))
        (append_assoc w (record_bytes r) (records_bytes rs)) (omega arith))

pub read_u32_lem :
    (v : ℕ) (rest : List ℕ)
    → v < 4294967296
    → read_u32 (file (le_bytes 4 v ++ rest)) ≡ ok (v, file rest)
unfolding read_u32
read_u32_lem v rest h =
    rw (read_exact-append (le_bytes 4 v) rest unexpected_eof)
      (ap (λ (t : ℕ). ok (t, file rest)) (of_le_bytes-le_bytes 4 v h))

pub read_u16_lem :
    (v : ℕ) (rest : List ℕ) → v < 65536 → read_u16 (file (le_bytes 2 v ++ rest)) ≡ ok (v, file rest)
unfolding read_u16
read_u16_lem v rest h =
    rw (read_exact-append (le_bytes 2 v) rest unexpected_eof)
      (ap (λ (t : ℕ). ok (t, file rest)) (of_le_bytes-le_bytes 2 v h))

next_record_lem :
    (r : CsiRecord) (rest : List ℕ)
    → IsFramed r
    → next_record (file (record_bytes r ++ rest)) ≡ ok (some (restored r), file rest)
unfolding next_record record_bytes
next_record_lem r rest h =
    let p = encode_payload r in
    rw (read_exact-append (record_tag ∷ []) (le_bytes 4 (length p) ++ (p ++ rest)) unexpected_eof) (
      rw (read_u32_lem (length p) (p ++ rest) h.1)
        (rw (read_exact-append p rest unexpected_eof) (rw (decode_payload-encode_payload r h.0))))

-- The reader ends cleanly at the end of the file.
next_record-end : next_record (file []) ≡ ok (none, file [])
unfolding next_record read_exact
next_record-end = refl

pub read_records-records_bytes :
    (rs : List CsiRecord) (fuel : ℕ)
    → All IsFramed rs
    → length (records_bytes rs) < fuel
    → read_records fuel (file (records_bytes rs)) ≡ ok (map restored rs)
unfolding read_records records_bytes
read_records-records_bytes rs zero h f = absurd (omega arith)
read_records-records_bytes [] (suc fuel) h f = rw next_record-end
read_records-records_bytes (r ∷ rs) (suc fuel) (h, hs) f =
    rw (next_record_lem r (records_bytes rs) h) (
      rw (
        read_records-records_bytes rs fuel hs (
          omega (arith, length-append (record_bytes r) (records_bytes rs), length-record_bytes r))))
