-- ===== src/Csiq/Tlv/Typed.antt =====
-- The ranges of the Rust types, and the canonical form of each enumeration, through the arms of
-- `decode_payload`.
use csid.Prelude.{ℕ, ◌*◌, ◌≡◌, List, arith}
use csid.Prelude.{length, get_or, All}
use csid.Prelude.Bytes.{get_or-IsByte, IsByte, of_le_bytes, of_le_bytes-lt}
use csid.Prelude.Int.{of_pattern-IsSigned}
use csid.Csiq.Error.{ok}
use csid.Csiq.Width
use csid.Csiq.Width.{Width}
use csid.Csiq.Bandwidth
use csid.Csiq.Modulation
use csid.Csiq.Record.{
  PhyLabel, BwAntsel, IsTypedPhy, IsTypedBwAntsel, IsTypedNode, Each, IsU16, IsU32, IsU64, IsI16,
  IsI32,
}
use csid.Csiq.Tlv.Arms.{i16s_of_chunks-IsI16, length-i16s_of_chunks}
use csid.Csiq.Tlv.Decode.{Fields, initial, decode_field}

-- Labels and antenna fields as a decoder makes them.
pub record IsDecodedPhy (p : PhyLabel) : Type 0 where
  pub canonical : Modulation.IsCanonical p.modulation
  pub typed : IsTypedPhy p

pub record IsDecodedBw (b : BwAntsel) : Type 0 where
  pub canonical : Bandwidth.IsCanonical b.bandwidth
  pub typed : IsTypedBwAntsel b

phy_decoded :
    (a b c : ℕ)
    → IsByte a
    → IsByte b
    → IsByte c
    → IsDecodedPhy (record { modulation = Modulation.from_rnf_type a; mcs = b; nss = c })
phy_decoded a b c ha hb hc = record {
  canonical = Modulation.from_rnf_type-IsCanonical a;
  typed = record {
    modulation_typed = rw (Modulation.to_code-from_rnf_type a) ha;
    mcs_typed = hb;
    nss_typed = hc;
  };
}

bw_decoded :
    (a b : ℕ)
    → IsByte a
    → IsByte b
    → IsDecodedBw (record { bandwidth = Bandwidth.from_code a; antenna_sel = b })
bw_decoded a b ha hb = record {
  canonical = Bandwidth.from_code-IsCanonical a;
  typed = record { bandwidth_typed = rw (Bandwidth.to_code-from_code a) ha; antenna_typed = hb };
}

width_decoded : (v : ℕ) → IsU16 v → IsU16 (Width.to_code (Width.from_code v))
width_decoded v h = rw (Width.to_code-from_code v) h

-- The locals' ranges.
pub record IsTypedFields (s : Fields) : Type 0 where
  pub ftm_typed : Each IsU32 s.ftm
  pub us_typed : IsU32 s.us
  pub unix_typed : IsU64 s.unix_ts_ns
  pub rnf_typed : IsU32 s.rnf
  pub phy_typed : Each IsDecodedPhy s.phy
  pub seq_typed : IsByte s.seq
  pub nrx_typed : Each IsByte s.nrx
  pub ntx_typed : Each IsByte s.ntx
  pub ntone_typed : Each IsU16 s.ntone
  pub rssi_typed : All IsI16 s.rssi
  pub rssi_fits : IsU32 (2 * length s.rssi)
  pub mac_typed : length s.src_mac ≡ 6
  pub mac_bytes : All IsByte s.src_mac
  pub channel_typed : IsU32 s.channel
  pub width_typed : IsU16 (Width.to_code s.width)
  pub bw_typed : Each IsDecodedBw s.bw_antsel
  pub mono_typed : Each IsU64 s.mono_us
  pub vendor_fits : Each (λ h. IsU32 (length h)) s.vendor_hdr
  pub vendor_bytes : Each (All IsByte) s.vendor_hdr
  pub node_typed : IsTypedNode s.node
  pub iq_typed : All IsI16 s.iq
  pub iq_fits : IsU32 (2 * length s.iq)

module _ (s s' : Fields) (ty : ℕ) (val : List ℕ) (hb : All IsByte val) (hl : IsU32 (length val))
    (e : decode_field s ty val ≡ ok s') where
  ftm_step : Each IsU32 s.ftm → Each IsU32 s'.ftm
  unfolding decode_field
  ftm_step t = ground (arith, of_le_bytes-lt val hb)

  us_step : IsU32 s.us → IsU32 s'.us
  unfolding decode_field
  us_step t = ground (arith, of_le_bytes-lt val hb)

  unix_step : IsU64 s.unix_ts_ns → IsU64 s'.unix_ts_ns
  unfolding decode_field
  unix_step t = ground (arith, of_le_bytes-lt val hb)

  rnf_step : IsU32 s.rnf → IsU32 s'.rnf
  unfolding decode_field
  rnf_step t = ground (arith, of_le_bytes-lt val hb)

  phy_step : Each IsDecodedPhy s.phy → Each IsDecodedPhy s'.phy
  unfolding decode_field
  phy_step t = ground (
    arith,
    phy_decoded (get_or val 0 0) (get_or val 1 0) (get_or val 2 0) (get_or-IsByte val 0 hb)
        (get_or-IsByte val 1 hb) (get_or-IsByte val 2 hb),
  )

  seq_step : IsByte s.seq → IsByte s'.seq
  unfolding decode_field
  seq_step t = ground (arith, get_or-IsByte val 0 hb)

  nrx_step : Each IsByte s.nrx → Each IsByte s'.nrx
  unfolding decode_field
  nrx_step t = ground (arith, get_or-IsByte val 0 hb)

  ntx_step : Each IsByte s.ntx → Each IsByte s'.ntx
  unfolding decode_field
  ntx_step t = ground (arith, get_or-IsByte val 0 hb)

  ntone_step : Each IsU16 s.ntone → Each IsU16 s'.ntone
  unfolding decode_field
  ntone_step t = ground (arith, of_le_bytes-lt val hb)

  rssi_step : All IsI16 s.rssi → All IsI16 s'.rssi
  unfolding decode_field
  rssi_step t = ground (arith, i16s_of_chunks-IsI16 val hb)

  rssi_len_step : IsU32 (2 * length s.rssi) → IsU32 (2 * length s'.rssi)
  unfolding decode_field
  rssi_len_step t = ground (arith, length-i16s_of_chunks val)

  mac_step : length s.src_mac ≡ 6 → length s'.src_mac ≡ 6
  unfolding decode_field
  mac_step t = ground (arith)

  mac-IsByte_step : All IsByte s.src_mac → All IsByte s'.src_mac
  unfolding decode_field
  mac-IsByte_step t = ground (arith)

  channel_step : IsU32 s.channel → IsU32 s'.channel
  unfolding decode_field
  channel_step t = ground (arith, of_le_bytes-lt val hb)

  width_step : IsU16 (Width.to_code s.width) → IsU16 (Width.to_code s'.width)
  unfolding decode_field
  width_step t = ground (arith, of_le_bytes-lt val hb, width_decoded (of_le_bytes val))

  bw_step : Each IsDecodedBw s.bw_antsel → Each IsDecodedBw s'.bw_antsel
  unfolding decode_field
  bw_step t = ground (
    arith,
    bw_decoded (get_or val 0 0) (get_or val 1 0) (get_or-IsByte val 0 hb) (get_or-IsByte val 1 hb),
  )

  mono_step : Each IsU64 s.mono_us → Each IsU64 s'.mono_us
  unfolding decode_field
  mono_step t = ground (arith, of_le_bytes-lt val hb)

  vendor_len_step :
      Each (λ h. IsU32 (length h)) s.vendor_hdr → Each (λ h. IsU32 (length h)) s'.vendor_hdr
  unfolding decode_field
  vendor_len_step t = ground (arith)

  vendor_step : Each (All IsByte) s.vendor_hdr → Each (All IsByte) s'.vendor_hdr
  unfolding decode_field
  vendor_step t = ground (arith)

  temp_step : Each IsI32 s.node.temp_mc → Each IsI32 s'.node.temp_mc
  unfolding decode_field
  temp_step t =
      ground (arith, of_le_bytes-lt val hb, of_pattern-IsSigned 2147483648 (of_le_bytes val))

  throttle_step : Each IsU32 s.node.throttle_flags → Each IsU32 s'.node.throttle_flags
  unfolding decode_field
  throttle_step t = ground (arith, of_le_bytes-lt val hb)

  spool_step : Each IsU64 s.node.spool_free_bytes → Each IsU64 s'.node.spool_free_bytes
  unfolding decode_field
  spool_step t = ground (arith, of_le_bytes-lt val hb)

  load_step : Each IsU32 s.node.load_m → Each IsU32 s'.node.load_m
  unfolding decode_field
  load_step t = ground (arith, of_le_bytes-lt val hb)

  nic_temp_step : Each IsI32 s.node.nic_temp_c → Each IsI32 s'.node.nic_temp_c
  unfolding decode_field
  nic_temp_step t =
      ground (arith, of_le_bytes-lt val hb, of_pattern-IsSigned 2147483648 (of_le_bytes val))

  iq_step : All IsI16 s.iq → All IsI16 s'.iq
  unfolding decode_field
  iq_step t = ground (arith, i16s_of_chunks-IsI16 val hb)

  iq_len_step : IsU32 (2 * length s.iq) → IsU32 (2 * length s'.iq)
  unfolding decode_field
  iq_len_step t = ground (arith, length-i16s_of_chunks val)

-- Every arm keeps the ranges.
pub decode_field-IsTyped :
    (s s' : Fields) (ty : ℕ) (val : List ℕ)
    → IsTypedFields s
    → All IsByte val
    → IsU32 (length val)
    → decode_field s ty val ≡ ok s'
    → IsTypedFields s'
decode_field-IsTyped s s' ty val t hb hl e = record {
  ftm_typed = ftm_step s s' ty val hb hl e t.ftm_typed;
  us_typed = us_step s s' ty val hb hl e t.us_typed;
  unix_typed = unix_step s s' ty val hb hl e t.unix_typed;
  rnf_typed = rnf_step s s' ty val hb hl e t.rnf_typed;
  phy_typed = phy_step s s' ty val hb hl e t.phy_typed;
  seq_typed = seq_step s s' ty val hb hl e t.seq_typed;
  nrx_typed = nrx_step s s' ty val hb hl e t.nrx_typed;
  ntx_typed = ntx_step s s' ty val hb hl e t.ntx_typed;
  ntone_typed = ntone_step s s' ty val hb hl e t.ntone_typed;
  rssi_typed = rssi_step s s' ty val hb hl e t.rssi_typed;
  rssi_fits = rssi_len_step s s' ty val hb hl e t.rssi_fits;
  mac_typed = mac_step s s' ty val hb hl e t.mac_typed;
  mac_bytes = mac-IsByte_step s s' ty val hb hl e t.mac_bytes;
  channel_typed = channel_step s s' ty val hb hl e t.channel_typed;
  width_typed = width_step s s' ty val hb hl e t.width_typed;
  bw_typed = bw_step s s' ty val hb hl e t.bw_typed;
  mono_typed = mono_step s s' ty val hb hl e t.mono_typed;
  vendor_fits = vendor_len_step s s' ty val hb hl e t.vendor_fits;
  vendor_bytes = vendor_step s s' ty val hb hl e t.vendor_bytes;
  iq_typed = iq_step s s' ty val hb hl e t.iq_typed;
  iq_fits = iq_len_step s s' ty val hb hl e t.iq_fits;
  node_typed = record {
    temp_mc_typed = temp_step s s' ty val hb hl e t.node_typed.temp_mc_typed;
    throttle_typed = throttle_step s s' ty val hb hl e t.node_typed.throttle_typed;
    spool_typed = spool_step s s' ty val hb hl e t.node_typed.spool_typed;
    load_typed = load_step s s' ty val hb hl e t.node_typed.load_typed;
    nic_temp_typed = nic_temp_step s s' ty val hb hl e t.node_typed.nic_temp_typed;
  };
}

pub initial-IsTyped : IsTypedFields initial
unfolding Width.to_code
initial-IsTyped = omega arith
