-- ===== src/Csiq/Tlv/Encode.antt =====
-- crates/csiq/src/tlv.rs, the writing half: `put_tlv`, `i16s_to_bytes`, `encode_payload`.
use csid.Prelude.{ℕ, ◌%◌, ◌^◌, Option, none, some, List, [], ◌∷◌, ◌++◌}
use csid.Prelude.{length}
use csid.Prelude.Bytes.{le_bytes}
use csid.Prelude.Int.{ℤ, to_pattern}
use csid.Csiq.Width
use csid.Csiq.Bandwidth
use csid.Csiq.Modulation
use csid.Csiq.Record.{NodeState, CsiRecord}
use csid.Csiq.Tlv.Types.{
  t_ftm, t_us, t_unix_ts_ns, t_rnf, t_phy, t_nrx, t_ntx, t_ntone, t_src_mac, t_channel, t_width,
  t_rssi, t_seq, t_csi_matrix, t_bw_antsel, t_mono_us, t_vendor_hdr, t_node_temp_mc,
  t_node_throttle, t_node_spool_free, t_node_load_m, t_node_nic_temp_c,
}

-- `value.len() as u32` keeps the low 32 bits.
unfoldable pub put_tlv : List ℕ → ℕ → List ℕ → List ℕ
put_tlv out ty value = out ++ (ty ∷ (le_bytes 4 (length value % 2 ^ 32) ++ value))

unfoldable pub i16s_to_bytes : List ℤ → List ℕ
i16s_to_bytes [] = []
i16s_to_bytes (x ∷ xs) = le_bytes 2 (to_pattern 32768 x) ++ i16s_to_bytes xs

-- `i32::to_le_bytes`.
abbrev pub i32_bytes : ℤ → List ℕ
i32_bytes x = le_bytes 4 (to_pattern 2147483648 x)

-- `if let Some(x) = o {… }` around a write.
abbrev pub if_some {ℓ} : {A : Type ℓ} → Option A → List ℕ → (A → List ℕ) → List ℕ
if_some none out write = out
if_some (some a) out write = write a

-- The optional fields: the decoded rate word, the clock and the driver header, the node state.
unfoldable pub put_labels : CsiRecord → List ℕ → List ℕ
put_labels r out =
    let out1 =
      if_some r.phy out
        (λ p. put_tlv out t_phy (Modulation.to_code p.modulation ∷ p.mcs ∷ p.nss ∷ [])) in
    if_some r.bw_antsel out1
      (λ b. put_tlv out1 t_bw_antsel (Bandwidth.to_code b.bandwidth ∷ b.antenna_sel ∷ []))

unfoldable pub put_driver : CsiRecord → List ℕ → List ℕ
put_driver r out =
    let out1 = if_some r.mono_us out (λ m. put_tlv out t_mono_us (le_bytes 8 m)) in
    if_some r.vendor_hdr out1 (λ h. put_tlv out1 t_vendor_hdr h)

unfoldable pub put_node : NodeState → List ℕ → List ℕ
put_node node out =
    let out1 = if_some node.temp_mc out (λ v. put_tlv out t_node_temp_mc (i32_bytes v)) in
    let out2 =
      if_some node.throttle_flags out1 (λ v. put_tlv out1 t_node_throttle (le_bytes 4 v)) in
    let out3 =
      if_some node.spool_free_bytes out2 (λ v. put_tlv out2 t_node_spool_free (le_bytes 8 v)) in
    let out4 = if_some node.load_m out3 (λ v. put_tlv out3 t_node_load_m (le_bytes 4 v)) in
    if_some node.nic_temp_c out4 (λ v. put_tlv out4 t_node_nic_temp_c (i32_bytes v))

unfoldable pub encode_payload : CsiRecord → List ℕ
unfolding put_labels put_driver put_node
encode_payload r =
    let out1 = put_tlv [] t_ftm (le_bytes 4 r.ftm) in
    let out2 = put_tlv out1 t_us (le_bytes 4 r.us) in
    let out3 = put_tlv out2 t_unix_ts_ns (le_bytes 8 r.unix_ts_ns) in
    let out4 = put_tlv out3 t_rnf (le_bytes 4 r.rnf) in
    let out5 = put_node r.node (put_driver r (put_labels r out4)) in
    let out6 = put_tlv out5 t_seq (r.seq ∷ []) in
    let out7 = put_tlv out6 t_nrx (r.nrx ∷ []) in
    let out8 = put_tlv out7 t_ntx (r.ntx ∷ []) in
    let out9 = put_tlv out8 t_ntone (le_bytes 2 r.ntone) in
    let out10 = put_tlv out9 t_src_mac r.src_mac in
    let out11 = put_tlv out10 t_channel (le_bytes 4 r.channel) in
    let out12 = put_tlv out11 t_width (le_bytes 2 (Width.to_code r.width)) in
    let out13 = put_tlv out12 t_rssi (i16s_to_bytes r.rssi) in
    put_tlv out13 t_csi_matrix (i16s_to_bytes r.iq)
