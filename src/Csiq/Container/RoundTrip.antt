-- ===== src/Csiq/Container/RoundTrip.antt =====
-- Reading a CSIQ file back: what the writer leaves in a `Vec<u8>`, and what the reader makes of it.
use csid.Prelude.{
  ℕ, suc, ◌%◌, ◌<◌, ◌≡◌, refl, ap, ◌∙◌, Option, none, some, List, [], ◌++◌, map, arith,
}
use csid.Prelude.{length, All}
use csid.Prelude.Bytes.{le_bytes}
use csid.Csiq.Error.{unexpected_eof, ok}
use csid.Csiq.Record.{CsiRecord, IsU32}
use csid.Csiq.Stream.{write_all, read_exact-append}
use csid.Csiq.Tlv.RoundTrip.{restored}
use csid.Csiq.Container.{
  magic, format_version, Json, Writer, session_block, new_writer, read_session, new_reader,
  write_file, read_file,
}
use csid.Csiq.Container.Records.{
  vec, file, IsFramed, records_bytes, write_records-Vec, read_u32_lem, read_u16_lem,
  read_records-records_bytes,
}

header_bytes : ℕ → List ℕ → List ℕ
header_bytes flags body =
    magic ++ (le_bytes 2 format_version ++ (le_bytes 2 flags ++ (le_bytes 4 (length body) ++ body)))

module _ (json : Json) where
  -- The session block, if there is one, has a printed form that its u32 length frames, and that
  -- serde_json parses as the second value.
  abbrev pub SessionFits : Option json.Value → Option json.Value → Type 0
  SessionFits none back = back ≡ none
  SessionFits (some v) back =
      (body : List ℕ) × (parsed : json.Value) × (json.to_vec v ≡ some body)
      × IsU32 (length body)
      × (json.from_slice body ≡ some parsed)
      × (back ≡ some parsed)

  new_writer-Vec :
      (v : Option json.Value) (flags : ℕ) (body : List ℕ)
      → session_block json v ≡ ok (flags, body)
      → IsU32 (length body)
      → new_writer json v (vec [])
        ≡ ok (record { inner = vec (header_bytes flags body); records = 0 })
  unfolding new_writer header_bytes write_all
  new_writer-Vec v flags body e h =
      let fits : length body % 4294967296 ≡ length body = omega arith in rw e (rw fits)

  new_reader-header :
      (flags : ℕ) (body rest : List ℕ)
      → flags < 65536
      → IsU32 (length body)
      → new_reader json (file (header_bytes flags body ++ rest))
        ≡ read_session json flags (length body) (file (body ++ rest))
  unfolding new_reader header_bytes
  new_reader-header flags body rest hf hb =
      let after_flags = le_bytes 4 (length body) ++ (body ++ rest) in
      let after_version = le_bytes 2 flags ++ after_flags in
      rw (read_exact-append magic (le_bytes 2 format_version ++ after_version) unexpected_eof) (
        rw (read_u16_lem format_version after_version (omega arith)) (
          rw (read_u16_lem flags after_flags hf)
            (rw (read_u32_lem (length body) (body ++ rest) hb))))

  read_session-back :
      (v back : Option json.Value) (rest : List ℕ)
      → SessionFits v back
      → (flags : ℕ) × (body : List ℕ) × (flags < 65536)
        × IsU32 (length body)
        × (session_block json v ≡ ok (flags, body))
        × (read_session json flags (length body) (file (body ++ rest)) ≡ ok (back, file rest))
  unfolding session_block read_session
  read_session-back none back rest h = (0, [], omega arith, omega arith, refl, rw h refl)
  read_session-back (some v) back rest (body, parsed, e, fits, again, h) = (
    1,
    body,
    omega arith,
    fits,
    rw e,
    rw (read_exact-append body rest unexpected_eof) (rw (again, h)),
  )

  -- Writing a file to a `Vec<u8>` succeeds, counts its records, and reading the bytes back gives the
  -- records in order, each as decoding its own payload restores it (the codes are decoded anew and a
  -- missing bandwidth is recovered), and the session block as serde_json parses what it printed.
  pub read_file-write_file :
      (v back : Option json.Value) (rs : List CsiRecord)
      → SessionFits v back
      → All IsFramed rs
      → (w : Writer) × (write_file json v rs (vec []) ≡ ok w)
        × (w.records ≡ length rs)
        × (read_file json (file w.inner.written) ≡ ok (back, map restored rs))
  unfolding write_file read_file
  read_file-write_file v back rs hv hrs =
      let (flags, body, hf, hb, es, er) = read_session-back v back (records_bytes rs) hv in
      (
        record { inner = vec (header_bytes flags body ++ records_bytes rs); records = length rs },
        rw (new_writer-Vec v flags body es hb) (
            write_records-Vec rs (header_bytes flags body) 0 hrs
            ∙ ap
                (λ (n : ℕ). ok (record {
                  inner = vec (header_bytes flags body ++ records_bytes rs);
                  records = n;
                }))
                (omega arith)),
        refl,
        rw (new_reader-header flags body (records_bytes rs) hf hb) (
            rw er (
              rw (
                read_records-records_bytes rs (suc (length (records_bytes rs))) hrs
                  (omega arith)))),
      )
