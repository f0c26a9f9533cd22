-- ===== src/Csid/Inject/Delivery.antt =====
-- The way of an injected frame from crates/csid/src/inject.rs into recognise of
-- crates/csid/src/timesync/payload.rs.
use csid.Prelude.Text.{hex_byte, u8_from_hex-hex_byte}
use csid.Csid.Timesync.Address.{mac_string, split_on-mac_string}
use csid.Csid.Timesync.Payload.{
  csid_magic, csid_frame, unix, Stamp, stamped, data_header_len, recognise_body, behind_header,
  recognise_mpdu, rt_len, recognise,
}
use csid.Csid.Inject.{
  InjectConfig, fill_parts, parse_mac, resize, driver_owns_rate, radiotap, header80211,
  stamp_payload, build_frame,
}
use csid.Prelude.{take-all}
use csid.Prelude.{
  ℕ, zero, suc, ◌+◌, ◌-◌, ◌^◌, ◌<◌, max, ◌≡◌, refl, ap, ◌∙◌, Bool, true, false, none, List, [], ◌∷◌,
  ◌++◌, append_assoc, arith,
}
use csid.Prelude.{
  ltb, leb, if◌then◌else◌, le→ltb, le→leb, lt→leb, length, replicate, All, length-append,
}
use csid.Prelude.Bytes.{IsByte, le_bytes, of_le_bytes-le_bytes}

length-fill_parts : (room : ℕ) (ps : List (List ℕ)) → length (fill_parts room ps) ≡ room
unfolding fill_parts
length-fill_parts zero ps = refl
length-fill_parts (suc room) [] = ap suc (length-fill_parts room [])
length-fill_parts (suc room) (p ∷ ps) = ap suc (length-fill_parts room ps)

pub length-parse_mac : (s : List ℕ) → length (parse_mac s) ≡ 6
unfolding parse_mac
length-parse_mac s = length-fill_parts 6 _

fill_parts-hex_byte :
    (a b c d e f : ℕ)
    → All IsByte (a ∷ b ∷ c ∷ d ∷ e ∷ f ∷ [])
    → fill_parts 6
        (hex_byte a ∷ hex_byte b ∷ hex_byte c ∷ hex_byte d ∷ hex_byte e ∷ hex_byte f ∷ [])
      ≡ a ∷ b ∷ c ∷ d ∷ e ∷ f ∷ []
unfolding fill_parts
fill_parts-hex_byte a b c d e f (ha, (hb, (hc, (hd, (he, (hf, _)))))) = rw (
  u8_from_hex-hex_byte a ha,
  u8_from_hex-hex_byte b hb,
  u8_from_hex-hex_byte c hc,
  u8_from_hex-hex_byte d hd,
  u8_from_hex-hex_byte e he,
  u8_from_hex-hex_byte f hf,
)

-- A configured address in canonical form is the address on the air.
parse_mac-mac_string : (m : List ℕ) → All IsByte m → length m ≡ 6 → parse_mac (mac_string m) ≡ m
unfolding parse_mac
parse_mac-mac_string (a ∷ b ∷ c ∷ d ∷ e ∷ f ∷ []) h _ =
    ap (fill_parts 6) (split_on-mac_string a b c d e f h) ∙ fill_parts-hex_byte a b c d e f h
parse_mac-mac_string m h e = absurd (omega arith)

-- What a frame is cut into: the header of a length, two addresses, and the stamp.
abbrev mpdu_of : List ℕ → List ℕ → ℕ → ℕ → ℕ → ℕ → List ℕ → List ℕ
mpdu_of dst src q0 q1 seq ns pad =
    8
    ∷ 0
    ∷ 0
    ∷ 0
    ∷ (dst
        ++ (src ++ (src ++ (q0 ∷ q1 ∷ (csid_magic ++ (le_bytes 8 seq ++ (le_bytes 8 ns ++ pad)))))))

abbrev pub injected : List ℕ → ℕ → ℕ → Stamp
injected src seq ns = record {
  kind = csid_frame;
  tx_id = mac_string src;
  tx_mac = src;
  seq = seq;
  tx_stamp_ns = ns;
  tx_clock = unix;
  tx_wall_ns = none;
}

recognise_body-injected :
    (src : List ℕ) (seq ns : ℕ) (pad : List ℕ)
    → seq < 2 ^ 64
    → ns < 2 ^ 64
    → recognise_body src (csid_magic ++ (le_bytes 8 seq ++ (le_bytes 8 ns ++ pad)))
      ≡ stamped (injected src seq ns)
unfolding recognise_body
recognise_body-injected src seq ns pad hs hn =
    let body = csid_magic ++ (le_bytes 8 seq ++ (le_bytes 8 ns ++ pad)) in
    let long : leb 20 (length body) ≡ true = le→leb 20 (length body) (omega arith) in
    rw (long, of_le_bytes-le_bytes 8 seq hs, of_le_bytes-le_bytes 8 ns hn) refl

six_bytes : (m : List ℕ) → length m ≡ 6 → (a b c d e f : ℕ) × (m ≡ a ∷ b ∷ c ∷ d ∷ e ∷ f ∷ [])
six_bytes (a ∷ b ∷ c ∷ d ∷ e ∷ f ∷ []) h = (a, b, c, d, e, f, refl)
six_bytes m h = absurd (omega arith)

recognise_mpdu-injected :
    (d0 d1 d2 d3 d4 d5 s0 s1 s2 s3 s4 s5 q0 q1 seq ns : ℕ) (pad : List ℕ)
    → seq < 2 ^ 64
    → ns < 2 ^ 64
    → recognise_mpdu (
        mpdu_of
          (d0 ∷ d1 ∷ d2 ∷ d3 ∷ d4 ∷ d5 ∷ [])
          (s0 ∷ s1 ∷ s2 ∷ s3 ∷ s4 ∷ s5 ∷ [])
          q0
          q1
          seq
          ns
          pad)
      ≡ stamped (injected (s0 ∷ s1 ∷ s2 ∷ s3 ∷ s4 ∷ s5 ∷ []) seq ns)
unfolding recognise_mpdu behind_header data_header_len
recognise_mpdu-injected d0 d1 d2 d3 d4 d5 s0 s1 s2 s3 s4 s5 q0 q1 seq ns pad hs hn =
    let src = s0 ∷ s1 ∷ s2 ∷ s3 ∷ s4 ∷ s5 ∷ [] in
    let mpdu = mpdu_of (d0 ∷ d1 ∷ d2 ∷ d3 ∷ d4 ∷ d5 ∷ []) src q0 q1 seq ns pad in
    let long : ltb (length mpdu) 24 ≡ false = le→ltb (length mpdu) 24 (omega arith) in
    let body : leb (length mpdu) 24 ≡ false = lt→leb (length mpdu) 24 (omega arith) in
    rw (long, body) (recognise_body-injected src seq ns pad hs hn)

recognise-driver :
    (mpdu : List ℕ) → recognise (0 ∷ 0 ∷ 8 ∷ 0 ∷ 0 ∷ 0 ∷ 0 ∷ 0 ∷ mpdu) ≡ recognise_mpdu mpdu
unfolding recognise rt_len
recognise-driver mpdu =
    let frame = 0 ∷ 0 ∷ 8 ∷ 0 ∷ 0 ∷ 0 ∷ 0 ∷ 0 ∷ mpdu in
    let long : ltb (length frame) 8 ≡ false = le→ltb (length frame) 8 (omega arith) in rw long refl

recognise-rated :
    (r : ℕ) (mpdu : List ℕ)
    → recognise (0 ∷ 0 ∷ 9 ∷ 0 ∷ 4 ∷ 0 ∷ 0 ∷ 0 ∷ r ∷ mpdu) ≡ recognise_mpdu mpdu
unfolding recognise rt_len
recognise-rated r mpdu =
    let frame = 0 ∷ 0 ∷ 9 ∷ 0 ∷ 4 ∷ 0 ∷ 0 ∷ 0 ∷ r ∷ mpdu in
    let long : ltb (length frame) 8 ≡ false = le→ltb (length frame) 8 (omega arith) in
    let fits : ltb (length frame) 9 ≡ false = le→ltb (length frame) 9 (omega arith) in
    rw (long, fits) refl

-- The frame that the addresses `dst` and `src` make, behind a radiotap header that is skipped.
recognise-framed :
    (rt : List ℕ)
    → ((m : List ℕ) → recognise (rt ++ m) ≡ recognise_mpdu m)
    → (n seq ns q : ℕ) (dst src : List ℕ) → length dst ≡ 6
    → length src ≡ 6
    → seq < 2 ^ 64
    → ns < 2 ^ 64
    → recognise (
        resize (length rt + max n 44) (
          rt
          ++ ((8 ∷ 0 ∷ 0 ∷ 0 ∷ (dst ++ (src ++ (src ++ le_bytes 2 q)))) ++ stamp_payload seq ns)))
      ≡ stamped (injected src seq ns)
unfolding stamp_payload
recognise-framed rt skips n seq ns q (d0 ∷ d1 ∷ d2 ∷ d3 ∷ d4 ∷ d5 ∷ [])
      (s0 ∷ s1 ∷ s2 ∷ s3 ∷ s4 ∷ s5 ∷ []) _ _ hs hn =
    let dst = d0 ∷ d1 ∷ d2 ∷ d3 ∷ d4 ∷ d5 ∷ [] in
    let src = s0 ∷ s1 ∷ s2 ∷ s3 ∷ s4 ∷ s5 ∷ [] in
    let mpdu = (8 ∷ 0 ∷ 0 ∷ 0 ∷ (dst ++ (src ++ (src ++ le_bytes 2 q)))) ++ stamp_payload seq ns in
    let size = length rt + max n 44 in
    let pad : List ℕ = replicate (size - length (rt ++ mpdu)) 0 in
    let whole = take-all size (rt ++ mpdu) (omega (arith, length-append rt mpdu)) in
    ap (λ (f : List ℕ). recognise (f ++ pad)) whole
    ∙ ap recognise (append_assoc rt mpdu pad)
    ∙ skips (mpdu ++ pad)
    ∙ recognise_mpdu-injected d0 d1 d2 d3 d4 d5 s0 s1 s2 s3 s4 s5 _ _ seq ns pad hs hn
recognise-framed rt skips n seq ns q dst src hd hs _ _ = absurd (omega arith)

-- Both radiotap headers, with the rate byte and without.
recognise-owned :
    (owns : Bool) (rate n seq ns q : ℕ) (dst src : List ℕ)
    → length dst ≡ 6
    → length src ≡ 6
    → seq < 2 ^ 64
    → ns < 2 ^ 64
    → recognise (
        resize ((if owns then 8 else 9) + max n 44) (
          (0
            ∷ 0
            ∷ (le_bytes 2 (if owns then 8 else 9)
                ++ (if owns then le_bytes 4 0 else le_bytes 4 4 ++ (rate ∷ []))))
          ++ ((8 ∷ 0 ∷ 0 ∷ 0 ∷ (dst ++ (src ++ (src ++ le_bytes 2 q)))) ++ stamp_payload seq ns)))
      ≡ stamped (injected src seq ns)
recognise-owned true rate = recognise-framed (0 ∷ 0 ∷ 8 ∷ 0 ∷ 0 ∷ 0 ∷ 0 ∷ 0 ∷ []) recognise-driver
recognise-owned false rate =
    recognise-framed (0 ∷ 0 ∷ 9 ∷ 0 ∷ 4 ∷ 0 ∷ 0 ∷ 0 ∷ rate ∷ []) (recognise-rated rate)

-- Whatever the configuration, the recogniser takes a frame of the injector as such: its
-- transmitter is the configured source address, and its stamp the counter and the time given.
pub recognise-build_frame :
    (cfg : InjectConfig) (seq tx_unix_ns : ℕ)
    → seq < 2 ^ 64
    → tx_unix_ns < 2 ^ 64
    → recognise (build_frame cfg seq tx_unix_ns)
      ≡ stamped (record {
        kind = csid_frame;
        tx_id = mac_string (parse_mac cfg.src_mac);
        tx_mac = parse_mac cfg.src_mac;
        seq = seq;
        tx_stamp_ns = tx_unix_ns;
        tx_clock = unix;
        tx_wall_ns = none;
      })
unfolding build_frame radiotap header80211
recognise-build_frame cfg seq ns hs hn =
    recognise-owned (driver_owns_rate cfg) _ cfg.frame_bytes seq ns _ (parse_mac cfg.dst_mac)
      (parse_mac cfg.src_mac) (length-parse_mac cfg.dst_mac) (length-parse_mac cfg.src_mac) hs hn

-- With a source address in canonical form, it is the address on the air and, as a text, the
-- transmitter's name.
pub recognise-mac_string :
    (cfg : InjectConfig) (m : List ℕ) (seq tx_unix_ns : ℕ)
    → All IsByte m
    → length m ≡ 6
    → cfg.src_mac ≡ mac_string m
    → seq < 2 ^ 64
    → tx_unix_ns < 2 ^ 64
    → recognise (build_frame cfg seq tx_unix_ns) ≡ stamped (injected m seq tx_unix_ns)
recognise-mac_string cfg m seq ns hm six e hs hn =
    recognise-build_frame cfg seq ns hs hn
    ∙ ap (λ (src : List ℕ). stamped (injected src seq ns))
        (ap parse_mac e ∙ parse_mac-mac_string m hm six)
