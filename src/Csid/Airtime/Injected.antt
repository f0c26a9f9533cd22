-- ===== src/Csid/Airtime/Injected.antt =====
-- The frames of the injector (crates/csid/src/inject.rs) as crates/csid/src/airtime.rs reads them.
use csid.Csid.Airtime.{default_phy}
use csid.Csid.Airtime.Parse.{parse}
use csid.Csid.Inject.{
  InjectConfig, driver_owns_rate, build_frame, radiotap, header80211, resize, parse_mac,
  stamp_payload,
}
use csid.Csid.Inject.Delivery.{length-parse_mac}
use csid.Prelude.{take-all}
use csid.Prelude.{
  ℕ, ◌+◌, ◌-◌, ◌*◌, ◌%◌, ◌^◌, ◌≤◌, max, ◌≡◌, refl, ap, ◌∙◌, Bool, true, false, Option, none, some,
  List, [], ◌∷◌, ◌++◌, append_assoc, arith,
}
use csid.Prelude.{
  ltb, leb, if◌then◌else◌, le→ltb, le→leb, length, replicate, length-append, length-replicate,
}
use csid.Prelude.Bytes.{le_bytes}

parse-driver :
    (m : List ℕ)
    → parse (0 ∷ 0 ∷ 8 ∷ 0 ∷ 0 ∷ 0 ∷ 0 ∷ 0 ∷ m) ≡ some (record default_phy { psdu_len = length m })
unfolding parse
parse-driver m =
    let frame : List ℕ = 0 ∷ 0 ∷ 8 ∷ 0 ∷ 0 ∷ 0 ∷ 0 ∷ 0 ∷ m in
    let long : ltb (length frame) 8 ≡ false = le→ltb (length frame) 8 (omega arith) in
    let two : leb 4 (length frame) ≡ true = le→leb 4 (length frame) (omega arith) in
    let four : leb 8 (length frame) ≡ true = le→leb 8 (length frame) (omega arith) in
    let behind : length frame - 8 ≡ length m = omega arith in rw (long, two, long, four, behind)

parse-rated :
    (r : ℕ) (m : List ℕ)
    → parse (0 ∷ 0 ∷ 9 ∷ 0 ∷ 4 ∷ 0 ∷ 0 ∷ 0 ∷ r ∷ m)
      ≡ some (record default_phy { rate_500k = some r; psdu_len = length m })
unfolding parse
parse-rated r m =
    let frame : List ℕ = 0 ∷ 0 ∷ 9 ∷ 0 ∷ 4 ∷ 0 ∷ 0 ∷ 0 ∷ r ∷ m in
    let long : ltb (length frame) 8 ≡ false = le→ltb (length frame) 8 (omega arith) in
    let two : leb 4 (length frame) ≡ true = le→leb 4 (length frame) (omega arith) in
    let fits : ltb (length frame) 9 ≡ false = le→ltb (length frame) 9 (omega arith) in
    let four : leb 8 (length frame) ≡ true = le→leb 8 (length frame) (omega arith) in
    let behind : length frame - 9 ≡ length m = omega arith in rw (long, two, fits, four, behind)

length-header80211 : (cfg : InjectConfig) (seq : ℕ) → length (header80211 cfg seq) ≡ 24
unfolding header80211
length-header80211 cfg seq =
    let dst : List ℕ = parse_mac cfg.dst_mac in
    let src : List ℕ = parse_mac cfg.src_mac in
    let q : List ℕ = le_bytes 2 (seq % 2 ^ 16 % 0x1000 * 2 ^ 4 % 2 ^ 16) in
    omega (
      arith,
      length-append dst (src ++ (src ++ q)),
      length-append src (src ++ q),
      length-append src q,
      length-parse_mac cfg.dst_mac,
      length-parse_mac cfg.src_mac,
    )

length-stamp_payload : (seq ns : ℕ) → length (stamp_payload seq ns) ≡ 20
unfolding stamp_payload
length-stamp_payload seq ns = refl

-- A frame filled up to its length, behind a header that is read so.
parse-resize :
    (rt mpdu : List ℕ) (n : ℕ) (rate : Option ℕ)
    → ((m : List ℕ)
        → parse (rt ++ m) ≡ some (record default_phy { rate_500k = rate; psdu_len = length m }))
    → length mpdu ≤ n
    → parse (resize (length rt + n) (rt ++ mpdu))
      ≡ some (record default_phy { rate_500k = rate; psdu_len = n })
parse-resize rt mpdu n rate reads h =
    let size : ℕ = length rt + n in
    let pad : List ℕ = replicate (size - length (rt ++ mpdu)) 0 in
    let whole = take-all size (rt ++ mpdu) (omega (arith, length-append rt mpdu)) in
    let filled : length (mpdu ++ pad) ≡ n = omega (
      arith,
      length-append mpdu pad,
      length-append rt mpdu,
      length-replicate {A = ℕ} (size - length (rt ++ mpdu)) 0,
    ) in
    ap (λ (f : List ℕ). parse (f ++ pad)) whole
    ∙ ap parse (append_assoc rt mpdu pad)
    ∙ reads (mpdu ++ pad)
    ∙ ap (λ (k : ℕ). some (record default_phy { rate_500k = rate; psdu_len = k })) filled

-- Both radiotap headers, with the rate byte and without.
parse-owned :
    (owns : Bool) (rate n : ℕ) (mpdu : List ℕ)
    → length mpdu ≤ n
    → parse (
        resize ((if owns then 8 else 9) + n) (
          (0
            ∷ 0
            ∷ (le_bytes 2 (if owns then 8 else 9)
                ++ (if owns then le_bytes 4 0 else le_bytes 4 4 ++ (rate ∷ []))))
          ++ mpdu))
      ≡ some (record default_phy { rate_500k = if owns then none else some rate; psdu_len = n })
parse-owned true rate n mpdu =
    parse-resize (0 ∷ 0 ∷ 8 ∷ 0 ∷ 0 ∷ 0 ∷ 0 ∷ 0 ∷ []) mpdu n none parse-driver
parse-owned false rate n mpdu =
    parse-resize (0 ∷ 0 ∷ 9 ∷ 0 ∷ 4 ∷ 0 ∷ 0 ∷ 0 ∷ rate ∷ []) mpdu n (some rate) (parse-rated rate)

-- The airtime parser reads a frame of the injector as one of the configured legacy rate, or of no
-- rate where the driver forces it, with no HT, VHT or HE field, and with the frame's length.
pub parse-build_frame :
    (cfg : InjectConfig) (seq tx_unix_ns : ℕ)
    → parse (build_frame cfg seq tx_unix_ns)
      ≡ some (record default_phy {
        rate_500k =
            if driver_owns_rate cfg then none else some (cfg.bitrate_mbps * 2 % 2 ^ 32 % 256);
        psdu_len = max cfg.frame_bytes 44;
      })
unfolding build_frame radiotap
parse-build_frame cfg seq ns =
    parse-owned (driver_owns_rate cfg) (cfg.bitrate_mbps * 2 % 2 ^ 32 % 256)
      (max cfg.frame_bytes 44) (header80211 cfg seq ++ stamp_payload seq ns)
      (omega (
        arith,
        length-append (header80211 cfg seq) (stamp_payload seq ns),
        length-header80211 cfg seq,
        length-stamp_payload seq ns,
      ))
