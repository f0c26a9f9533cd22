-- ===== src/Csiq/Raw/Framing.antt =====
-- The framing of the raw stream: a message as the driver lays it out, its reading, and
-- what the reader makes of the end of the stream.
use csid.Prelude.{
  ℕ, ◌+◌, ◌<◌, ◌≡◌, refl, sym, ap, ◌∙◌, false, none, some, List, [], ◌∷◌, ◌++◌, append_assoc, arith,
}
use csid.Prelude.{ltb, le→ltb, length, take, drop, length-append, take-append, drop-append}
use csid.Prelude.Bytes.{be_bytes, of_be_bytes, length-be_bytes, of_be_bytes-be_bytes}
use mathlib.Core.Path.{ap₂}
use csid.Csiq.Error.{unexpected_eof, ok, ◌>>=◌}
use csid.Csiq.Record.{IsU32}
use csid.Csiq.Stream.{Source, read_exact, read_exact-append, read_exact_short}
use csid.Csiq.Raw.{parse_record_opts, RawReader, split_body, next_record}

-- `[be32 hdr_len][hdr][be32 csi_len][csi]`, and the message with its length in front.
unfoldable pub message_body : List ℕ → List ℕ → List ℕ
message_body hdr csi = be_bytes 4 (length hdr) ++ (hdr ++ (be_bytes 4 (length csi) ++ csi))

unfoldable pub message : List ℕ → List ℕ → List ℕ
unfolding message_body
message hdr csi = be_bytes 4 (length (message_body hdr csi)) ++ message_body hdr csi

pub length-message_body :
    (hdr csi : List ℕ) → length (message_body hdr csi) ≡ 8 + length hdr + length csi
unfolding message_body
length-message_body hdr csi = omega (
  arith,
  length-append (be_bytes 4 (length hdr)) (hdr ++ (be_bytes 4 (length csi) ++ csi)),
  length-append hdr (be_bytes 4 (length csi) ++ csi),
  length-append (be_bytes 4 (length csi)) csi,
  length-be_bytes 4 (length hdr),
  length-be_bytes 4 (length csi),
)

take_known : (n : ℕ) (xs ys : List ℕ) → length xs ≡ n → take n (xs ++ ys) ≡ xs
take_known n xs ys e = ap (λ k. take k (xs ++ ys)) (sym e) ∙ take-append xs ys

take_all : (xs : List ℕ) → take (length xs) xs ≡ xs
take_all [] = refl
take_all (x ∷ xs) = ap (λ t. x ∷ t) (take_all xs)

drop_known : (n : ℕ) (xs ys : List ℕ) → length xs ≡ n → drop n (xs ++ ys) ≡ ys
drop_known n xs ys e = ap (λ k. drop k (xs ++ ys)) (sym e) ∙ drop-append xs ys

module _ (hdr csi : List ℕ) where
  h4 : List ℕ
  h4 = be_bytes 4 (length hdr)

  c4 : List ℕ
  c4 = be_bytes 4 (length csi)

  hdr_len_back : IsU32 (length hdr) → of_be_bytes (take 4 (message_body hdr csi)) ≡ length hdr
  unfolding message_body
  hdr_len_back h =
      ap of_be_bytes (take_known 4 (be_bytes 4 (length hdr)) _ (length-be_bytes 4 (length hdr)))
      ∙ of_be_bytes-be_bytes 4 (length hdr) h

  drop_hdr_len : drop 4 (message_body hdr csi) ≡ hdr ++ (be_bytes 4 (length csi) ++ csi)
  unfolding message_body
  drop_hdr_len = drop_known 4 (be_bytes 4 (length hdr)) _ (length-be_bytes 4 (length hdr))

  drop_hdr : drop (4 + length hdr) (message_body hdr csi) ≡ be_bytes 4 (length csi) ++ csi
  unfolding message_body h4 c4
  drop_hdr =
      ap (drop (4 + length hdr)) (sym (append_assoc h4 hdr (c4 ++ csi)))
      ∙ drop_known (4 + length hdr) (h4 ++ hdr) (c4 ++ csi)
          (omega (arith, length-append h4 hdr, length-be_bytes 4 (length hdr)))

  drop_csi_len : drop (4 + length hdr + 4) (message_body hdr csi) ≡ csi
  unfolding message_body h4 c4
  drop_csi_len =
      ap (drop (4 + length hdr + 4))
        (sym (append_assoc h4 (hdr ++ c4) csi ∙ ap (λ t. h4 ++ t) (append_assoc hdr c4 csi)))
      ∙ drop_known (4 + length hdr + 4) (h4 ++ (hdr ++ c4)) csi (
          omega (
            arith,
            length-append h4 (hdr ++ c4),
            length-append hdr c4,
            length-be_bytes 4 (length hdr),
            length-be_bytes 4 (length csi),
          ))

  csi_len_back :
      IsU32 (length csi)
      → of_be_bytes (take 4 (drop (4 + length hdr) (message_body hdr csi))) ≡ length csi
  csi_len_back h =
      ap (λ t. of_be_bytes (take 4 t)) drop_hdr
      ∙ ap of_be_bytes (take_known 4 (be_bytes 4 (length csi)) csi (length-be_bytes 4 (length csi)))
      ∙ of_be_bytes-be_bytes 4 (length csi) h

  -- A body that fits its lengths splits into its two parts.
  split_body-message_body :
      IsU32 (length hdr) → IsU32 (length csi) → split_body (message_body hdr csi) ≡ ok (hdr, csi)
  unfolding split_body
  split_body-message_body hh hc =
      let long = length-message_body hdr csi in
      let g1 : ltb (length (message_body hdr csi)) 4 ≡ false =
        le→ltb (length (message_body hdr csi)) 4 (omega (arith, long)) in
      let g2 : ltb (length (message_body hdr csi)) (4 + length hdr + 4) ≡ false =
        le→ltb (length (message_body hdr csi)) (4 + length hdr + 4) (omega (arith, long)) in
      let g3 : ltb (length (message_body hdr csi)) (4 + length hdr + 4 + length csi) ≡ false =
        le→ltb (length (message_body hdr csi)) (4 + length hdr + 4 + length csi)
          (omega (arith, long)) in
      rw (hdr_len_back hh) (
        rw g1 (
          rw g2 (
            rw (csi_len_back hc) (
              rw g3 (
                rw (
                  drop_hdr_len,
                  drop_csi_len,
                  take-append hdr (be_bytes 4 (length csi) ++ csi),
                  take_all csi,
                ))))))

read_prefix :
    (n : ℕ) (src : Source) (s rest : List ℕ)
    → src.bytes ≡ s ++ rest
    → length s ≡ n
    → read_exact n src ≡ ok (s, record src { bytes = rest })
read_prefix n src s rest e l =
    ap₂ (λ (k : ℕ) (b : List ℕ). read_exact k (record src { bytes = b })) (sym l) e
    ∙ read_exact-append s rest src.ending

-- The next record of a stream that begins with a whole message is the parse of the message's two
-- parts, an error of the parse included, and the reader stands behind the message.
pub next_record-message :
    (rd : RawReader) (hdr csi rest : List ℕ)
    → IsU32 (8 + length hdr + length csi)
    → rd.inner.bytes ≡ message hdr csi ++ rest
    → next_record rd ≡ (
        parse_record_opts hdr csi rd.width rd.keep_vendor_hdr >>= λ r.
        ok (some r, record rd { inner = record (rd.inner) { bytes = rest } }))
unfolding next_record message
next_record-message rd hdr csi rest h e =
    let b = message_body hdr csi in
    let long = length-message_body hdr csi in
    let l4 = be_bytes 4 (length b) in
    let split : rd.inner.bytes ≡ l4 ++ (b ++ rest) = e ∙ append_assoc l4 b rest in
    let start : read_exact 4 rd.inner ≡ ok (l4, record (rd.inner) { bytes = b ++ rest }) =
      read_prefix 4 rd.inner l4 (b ++ rest) split (length-be_bytes 4 (length b)) in
    let whole : read_exact (length b) (record (rd.inner) { bytes = b ++ rest })
        ≡ ok (b, record (rd.inner) { bytes = rest }) =
      read_prefix (length b) (record (rd.inner) { bytes = b ++ rest }) b rest refl refl in
    rw start (
      rw (of_be_bytes-be_bytes 4 (length b) (omega (arith, long)))
        (rw whole (rw (split_body-message_body hdr csi (omega arith) (omega arith)))))

-- At the end of the file the reader yields no record and no error when fewer than four bytes are
-- left, none or a cut length prefix alike.
pub next_record-tail :
    (rd : RawReader)
    → rd.inner.ending ≡ unexpected_eof
    → length rd.inner.bytes < 4
    → next_record rd ≡ ok (none, rd)
unfolding next_record
next_record-tail rd e h = rw (read_exact_short 4 rd.inner h) (rw e)
