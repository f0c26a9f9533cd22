-- ===== src/Csiq/Raw/Typed.antt =====
-- The ranges of the record that the raw parser builds from bytes.
use csid.Prelude.{
  ℕ, zero, suc, ◌+◌, ◌/◌, ◌%◌, ◌^◌, ◌≤◌, ◌<◌, min, ◌≡◌, inl, inr, Bool, true, false, none, some,
  List, [], ◌∷◌, arith,
}
use csid.Prelude.{
  ltb, ◌==◌, if◌then◌else◌, ltb→lt, Bool-cases, length, get_or, take, drop, All, length-take,
  length-drop,
}
use csid.Prelude.Bytes.{get_or-IsByte, IsByte, of_le_bytes, of_le_bytes-lt}
use mathlib.Core.Path.{subst}
use csid.Csiq.Width.{Width}
use csid.Csiq.Width
use csid.Csiq.Bandwidth
use csid.Csiq.Modulation
use csid.Csiq.Record.{IsTypedPhy, IsTypedBwAntsel, IsTyped, Each, IsU16, IsU32, IsU64, IsI16}
use csid.Csiq.RateFlags.{decode_bw_antsel, decode_rnf}
use csid.Csiq.Tlv.Arms.{i16s_of_chunks-IsI16, length-i16s_of_chunks}
use csid.Csiq.Raw.{le_at, rssi_dbm, decode_mono_us, read_extension, build_record, off_channel}

All-take {ℓ κ} : {A : Type ℓ} (P : A → Type κ) (n : ℕ) (xs : List A) → All P xs → All P (take n xs)
All-take P zero xs h = tt
All-take P (suc n) [] h = tt
All-take P (suc n) (x ∷ xs) (h, hs) = (h, All-take P n xs hs)

All-drop {ℓ κ} : {A : Type ℓ} (P : A → Type κ) (n : ℕ) (xs : List A) → All P xs → All P (drop n xs)
All-drop P zero xs h = h
All-drop P (suc n) [] h = tt
All-drop P (suc n) (x ∷ xs) (h, hs) = All-drop P n xs hs

rssi_dbm-IsI16 : (raw : ℕ) → IsByte raw → IsI16 (rssi_dbm raw)
unfolding rssi_dbm
rssi_dbm-IsI16 zero h = omega arith
rssi_dbm-IsI16 (suc m) h = omega arith

Each-if {ℓ κ} :
    {A : Type ℓ} (P : A → Type κ) (b : Bool) (a : A) → P a → Each P (if b then none else some a)
Each-if P true a h = tt
Each-if P false a h = h

decode_rnf-IsTyped : (rnf : ℕ) → Each IsTypedPhy (decode_rnf rnf)
unfolding decode_rnf
decode_rnf-IsTyped rnf = Each-if IsTypedPhy (rnf == 0) _ (record {
  modulation_typed = rw (Modulation.to_code-from_rnf_type (rnf / 256 % 8)) (omega arith);
  mcs_typed = omega arith;
  nss_typed = omega arith;
})

pub decode_bw_antsel-IsTyped : (rnf : ℕ) → Each IsTypedBwAntsel (decode_bw_antsel rnf)
unfolding decode_bw_antsel
decode_bw_antsel-IsTyped rnf = Each-if IsTypedBwAntsel (rnf == 0) _ (record {
  bandwidth_typed = rw (Bandwidth.to_code-from_code (rnf / 2048 % 8)) (omega arith);
  antenna_typed = omega arith;
})

module _ (hdr : List ℕ) (hb : All IsByte hdr) where
  le_at-lt : (n o : ℕ) → o + n ≤ length hdr → le_at n hdr o < 256 ^ n
  unfolding le_at
  le_at-lt n o h =
      let len : length (take n (drop o hdr)) ≡ n =
        omega (arith, length-take n (drop o hdr), length-drop o hdr) in
      subst (λ (k : ℕ). of_le_bytes (take n (drop o hdr)) < 256 ^ k) len
        (of_le_bytes-lt (take n (drop o hdr)) (All-take IsByte n _ (All-drop IsByte o hdr hb)))

  extension_typed : IsU64 (read_extension hdr).0 × IsU32 (read_extension hdr).1
  unfolding read_extension
  extension_typed = elim (Bool-cases (ltb off_channel (length hdr))) [
    | inl e ↦ rw e (
      le_at-lt 8 208 (omega (arith, ltb→lt off_channel (length hdr) e)),
      omega (arith, get_or-IsByte hdr 216 hb),
    )
    | inr e ↦ rw e (omega arith)
  ]

  mono_typed : Each IsU64 (decode_mono_us hdr)
  unfolding decode_mono_us
  mono_typed = elim (Bool-cases (ltb (length hdr) 208)) [
    | inl e ↦ rw e tt
    | inr e ↦ rw e (
        Each-if IsU64 (le_at 8 hdr 200 == 0) (le_at 8 hdr 200)
          (le_at-lt 8 200 (omega (arith, not_short e))))
  ]
    where
      not_short : ltb (length hdr) 208 ≡ false → 208 ≤ length hdr
      not_short e = ground arith

-- A record built from the bytes of a header of at least 96 bytes has every field in its Rust type.
pub build_record-IsTyped :
    (hdr csi : List ℕ) (width : Width) (keep : Bool)
    → All IsByte hdr
    → All IsByte csi
    → 96 ≤ length hdr
    → IsU32 (length hdr)
    → IsU32 (length csi)
    → IsU16 (Width.to_code width)
    → IsTyped (build_record hdr csi width keep)
unfolding build_record
build_record-IsTyped hdr csi width keep hb cb long hdr_fits csi_fits hw = record {
  ftm_typed = le_at-lt hdr hb 4 8 (omega arith);
  us_typed = le_at-lt hdr hb 4 88 (omega arith);
  unix_typed = (extension_typed hdr hb).0;
  rnf_typed = le_at-lt hdr hb 4 92 (omega arith);
  phy_typed = decode_rnf-IsTyped (le_at 4 hdr 92);
  bw_antsel_typed = decode_bw_antsel-IsTyped (le_at 4 hdr 92);
  mono_typed = mono_typed hdr hb;
  vendor_fits = vendor keep;
  vendor_bytes = vendor_all keep;
  node_typed = record {
    temp_mc_typed = tt;
    throttle_typed = tt;
    spool_typed = tt;
    load_typed = tt;
    nic_temp_typed = tt;
  };
  seq_typed = get_or-IsByte hdr 76 hb;
  nrx_typed = get_or-IsByte hdr 46 hb;
  ntx_typed = get_or-IsByte hdr 47 hb;
  ntone_typed = le_at-lt hdr hb 2 52 (omega arith);
  rssi_typed = All-take IsI16 (min (get_or hdr 46 0) 2) _ (
    rssi_dbm-IsI16 _ (get_or-IsByte hdr 60 hb),
    (rssi_dbm-IsI16 _ (get_or-IsByte hdr 64 hb), tt),
  );
  rssi_fits = omega (
    arith,
    length-take (min (get_or hdr 46 0) 2)
        (rssi_dbm (get_or hdr 60 0) ∷ rssi_dbm (get_or hdr 64 0) ∷ []),
  );
  mac_typed = omega (arith, length-take 6 (drop 68 hdr), length-drop 68 hdr);
  mac_bytes = All-take IsByte 6 _ (All-drop IsByte 68 hdr hb);
  channel_typed = (extension_typed hdr hb).1;
  width_typed = hw;
  iq_typed = i16s_of_chunks-IsI16 csi cb;
  iq_fits = omega (arith, length-i16s_of_chunks csi);
}
  where
    vendor : (k : Bool) → Each (λ h. IsU32 (length h)) (if k then some hdr else none)
    vendor true = hdr_fits
    vendor false = tt

    vendor_all : (k : Bool) → Each (All IsByte) (if k then some hdr else none)
    vendor_all true = hb
    vendor_all false = tt
