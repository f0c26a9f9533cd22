-- ===== src/Csid/Inject.antt =====
-- crates/csid/src/inject.rs: the frame that the injector sends. Of its configuration
-- (crates/csid/src/config.rs) the model has the fields that `build_frame` reads.
pub mod Delivery
pub mod Pacing
use csid.Prelude.Text.{u8_from_hex, split_on}
use csid.Csid.Timesync.Payload.{csid_magic}
use csid.Prelude.{
  ℕ, zero, suc, ◌+◌, ◌-◌, ◌*◌, ◌/◌, ◌%◌, ◌^◌, ◌≤◌, ◌<◌, min, max, ◌≡◌, refl, sym, ap, ◌∙◌, ◌≢◌, ◌↔◌,
  ◌⊎◌, inl, inr, Bool, true, false, not, ◌&&◌, ◌||◌, Option, none, some, List, [], ◌∷◌, ◌++◌, map,
  append-nil, append_assoc, arith,
}
use csid.Prelude.{
  ltb, leb, ◌==◌, if◌then◌else◌, ltb→lt, lt→ltb, le→ltb, le→leb, lt→leb, leb→le, ==_iff, ==_refl,
  Bool-cases, Option-cases, length, get_elem?, get_or, range_map, length-range_map,
  get_elem?-range_map, get_elem?-append_right, get_elem?-append_left, take, drop, replicate, All,
  length-append, length-take, length-drop, length-replicate, take-append-drop, take-append,
  drop-append, All-append, eq_bytes, eq_bytes_refl, eq_bytes→eq,
}
use csid.Prelude.Bytes.{
  IsByte, le_bytes, of_le_bytes, be_bytes, of_be_bytes, length-le_bytes, length-be_bytes,
  le_bytes-IsByte, of_le_bytes-le_bytes, of_be_bytes-be_bytes, of_le_bytes-lt, le_bytes-of_le_bytes,
  get_or-IsByte,
}
use csid.Prelude.Int.{
  ℤ, pos, negsuc, pos_part, neg_part, sub_ℕ, IsSigned, to_pattern, of_pattern, to_pattern-lt,
  of_pattern-to_pattern, of_pattern-IsSigned,
}

pub record InjectConfig : Type 0 where
  pub frame_bytes : ℕ
  pub src_mac : List ℕ
  pub dst_mac : List ℕ
  pub bitrate_mbps : ℕ
  pub monitor_tx_rate : ℕ

-- `unwrap_or(0)`.
abbrev pub or_zero : Option ℕ → ℕ
or_zero none = 0
or_zero (some b) = b

-- The loop over the first six parts, on the slots left of an array of zeros.
unfoldable pub fill_parts : ℕ → List (List ℕ) → List ℕ
fill_parts zero ps = []
fill_parts (suc room) [] = 0 ∷ fill_parts room []
fill_parts (suc room) (p ∷ ps) = or_zero (u8_from_hex p) ∷ fill_parts room ps

unfoldable pub parse_mac : List ℕ → List ℕ
unfolding fill_parts
parse_mac s = fill_parts 6 (split_on b':' s)

-- `Vec::resize`.
abbrev pub resize : ℕ → List ℕ → List ℕ
resize n xs = take n xs ++ replicate (n - length xs) 0

abbrev pub driver_owns_rate : InjectConfig → Bool
driver_owns_rate cfg = not (cfg.monitor_tx_rate == 0)

abbrev pub radiotap_len : InjectConfig → ℕ
radiotap_len cfg = if driver_owns_rate cfg then 8 else 9

-- Without a rate that the driver forces, the rate field in steps of 500 kbps.
unfoldable pub radiotap : InjectConfig → List ℕ
radiotap cfg =
    0
    ∷ 0
    ∷ (le_bytes 2 (radiotap_len cfg)
        ++ (if driver_owns_rate cfg
            then le_bytes 4 0
            else le_bytes 4 4 ++ (cfg.bitrate_mbps * 2 % 2 ^ 32 % 256 ∷ [])))

unfoldable pub header80211 : InjectConfig → ℕ → List ℕ
header80211 cfg seq =
    0x08
    ∷ 0x00
    ∷ 0x00
    ∷ 0x00
    ∷ (parse_mac cfg.dst_mac
        ++ (parse_mac cfg.src_mac
            ++ (parse_mac cfg.src_mac ++ le_bytes 2 (seq % 2 ^ 16 % 0x1000 * 2 ^ 4 % 2 ^ 16))))

unfoldable pub stamp_payload : ℕ → ℕ → List ℕ
stamp_payload seq tx_unix_ns = csid_magic ++ (le_bytes 8 seq ++ le_bytes 8 tx_unix_ns)

unfoldable pub build_frame : InjectConfig → ℕ → ℕ → List ℕ
unfolding radiotap header80211 stamp_payload
build_frame cfg seq tx_unix_ns =
    let mpdu_len = max cfg.frame_bytes (24 + 20) in
    resize (radiotap_len cfg + mpdu_len)
      (radiotap cfg ++ (header80211 cfg seq ++ stamp_payload seq tx_unix_ns))
