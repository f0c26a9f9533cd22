-- ===== src/Csiq/Tlv/RoundTrip.antt =====
-- `decode_payload` after `encode_payload`. The proof carries the
-- invariant of the writer through its stretches.
use csid.Prelude.{ℕ, ◌≡◌, refl, ap, ◌∙◌, Option, none, some, List, [], ◌∷◌, arith}
use csid.Prelude.{length}
use csid.Prelude.Bytes.{le_bytes}
use csid.Prelude.Int.{ℤ}
use mathlib.Core.Path.{subst}
use mathlib.Core.Option
use mathlib.Core.Option.{some-injective}
use csid.Csiq.Error.{ok, ◌>>=◌}
use csid.Csiq.Width
use csid.Csiq.Bandwidth
use csid.Csiq.Modulation
use csid.Csiq.Record.{
  BwAntsel, PhyLabel, NodeState, default_node, CsiRecord, IsI32, IsU32, IsU64, Each, IsTyped,
  IsTypedNode,
}
use csid.Csiq.Tlv.Types.{
  t_ftm, t_us, t_unix_ts_ns, t_rnf, t_phy, t_nrx, t_ntx, t_ntone, t_src_mac, t_channel, t_width,
  t_rssi, t_seq, t_csi_matrix, t_bw_antsel, t_mono_us, t_vendor_hdr, t_node_temp_mc,
  t_node_throttle, t_node_spool_free, t_node_load_m, t_node_nic_temp_c,
}
use csid.Csiq.Tlv.Encode.{
  put_tlv, i16s_to_bytes, i32_bytes, put_labels, put_driver, put_node, encode_payload,
}
use csid.Csiq.Tlv.Decode.{
  Fields, initial, decode_field, decode_loop, or_decoded, finish, decode_payload,
}
use csid.Csiq.Tlv.Frames.{frames, decode_loop-frames}
use csid.Csiq.Tlv.Arms.{
  length-i16s_to_bytes, ftm_arm, us_arm, unix_arm, rnf_arm, mono_arm, ntone_arm, channel_arm,
  width_arm, mac_arm, rssi_arm, iq_arm, temp_arm, nic_temp_arm, throttle_arm, spool_arm, load_arm,
}
use csid.Csiq.Tlv.Writes.{Reads, Reads-start, Reads-put, Reads-if_some}

-- The locals after each stretch of `encode_payload`.
abbrev clocks_read : CsiRecord → Fields
clocks_read r = record initial {
  ftm = some r.ftm;
  us = r.us;
  unix_ts_ns = r.unix_ts_ns;
  rnf = r.rnf;
}

-- A label as its codes give it back.
abbrev pub relabel : PhyLabel → PhyLabel
relabel p = record p { modulation = Modulation.from_rnf_type (Modulation.to_code p.modulation) }

abbrev pub recode : BwAntsel → BwAntsel
recode b = record b { bandwidth = Bandwidth.from_code (Bandwidth.to_code b.bandwidth) }

abbrev labels_read : CsiRecord → Fields
labels_read r = record (clocks_read r) {
  phy = Option.map relabel r.phy;
  bw_antsel = Option.map recode r.bw_antsel;
}

abbrev driver_read : CsiRecord → Fields
driver_read r = record (labels_read r) { mono_us = r.mono_us; vendor_hdr = r.vendor_hdr }

abbrev node_read : CsiRecord → Fields
node_read r = record (driver_read r) { node = r.node }

abbrev geometry_read : CsiRecord → Fields
geometry_read r = record (node_read r) {
  seq = r.seq;
  nrx = some r.nrx;
  ntx = some r.ntx;
  ntone = some r.ntone;
}

abbrev all_read : CsiRecord → Fields
all_read r = record (geometry_read r) {
  src_mac = r.src_mac;
  channel = r.channel;
  width = Width.from_code (Width.to_code r.width);
  rssi = r.rssi;
  iq = r.iq;
}

Reads-clocks :
    (r : CsiRecord)
    → IsTyped r
    → Reads
        (put_tlv
          (put_tlv
            (put_tlv (put_tlv [] t_ftm (le_bytes 4 r.ftm)) t_us (le_bytes 4 r.us))
            t_unix_ts_ns
            (le_bytes 8 r.unix_ts_ns))
          t_rnf
          (le_bytes 4 r.rnf))
        (clocks_read r)
Reads-clocks r h = Reads-put t_rnf (le_bytes 4 r.rnf) (omega arith) (rnf_arm _ r.rnf h.rnf_typed) (
    Reads-put t_unix_ts_ns (le_bytes 8 r.unix_ts_ns) (omega arith)
      (unix_arm _ r.unix_ts_ns h.unix_typed)
      (Reads-put t_us (le_bytes 4 r.us) (omega arith) (us_arm _ r.us h.us_typed) (
        Reads-put t_ftm (le_bytes 4 r.ftm) (omega arith) (ftm_arm initial r.ftm h.ftm_typed)
          Reads-start)))

Each-at {ℓ κ} : {A : Type ℓ} (P : A → Type κ) (o : Option A) (a : A) → Each P o → o ≡ some a → P a
Each-at P none a h e = cc
Each-at P (some b) a h e = subst P (some-injective b a e) h

Reads-labels :
    (r : CsiRecord) {out : List ℕ}
    → Reads out (clocks_read r)
    → Reads (put_labels r out) (labels_read r)
unfolding put_labels decode_field
Reads-labels r h =
    Reads-if_some r.bw_antsel
      (λ o. record (clocks_read r) {
        phy = Option.map relabel r.phy;
        bw_antsel = Option.map recode o;
      })
      t_bw_antsel (λ b. Bandwidth.to_code b.bandwidth ∷ b.antenna_sel ∷ [])
      (λ b e. (omega arith, refl))
      (Reads-if_some r.phy (λ o. record (clocks_read r) { phy = Option.map relabel o }) t_phy
        (λ p. Modulation.to_code p.modulation ∷ p.mcs ∷ p.nss ∷ []) (λ p e. (omega arith, refl)) h)

Reads-driver :
    (r : CsiRecord) {out : List ℕ}
    → IsTyped r
    → Reads out (labels_read r)
    → Reads (put_driver r out) (driver_read r)
unfolding put_driver decode_field
Reads-driver r t h =
    Reads-if_some r.vendor_hdr (λ o. record (labels_read r) { mono_us = r.mono_us; vendor_hdr = o })
      t_vendor_hdr (λ v. v)
      (λ v e. (Each-at (λ b. IsU32 (length b)) r.vendor_hdr v t.vendor_fits e, refl))
      (Reads-if_some r.mono_us (λ o. record (labels_read r) { mono_us = o }) t_mono_us
        (λ m. le_bytes 8 m)
        (λ m e.
          (omega arith, mono_arm (labels_read r) m (Each-at IsU64 r.mono_us m t.mono_typed e)))
        h)

Reads-node :
    (n : NodeState) (s : Fields) {out : List ℕ}
    → IsTypedNode n
    → Reads out (record s { node = default_node })
    → Reads (put_node n out) (record s { node = n })
unfolding put_node
Reads-node n s t h =
    let s1 = λ (o : Option ℤ). record s { node = record default_node { temp_mc = o } } in
    let s2 = λ (o : Option ℕ). record s {
      node = record default_node { temp_mc = n.temp_mc; throttle_flags = o };
    } in
    let s3 = λ (o : Option ℕ). record s {
      node = record n { spool_free_bytes = o; load_m = none; nic_temp_c = none };
    } in
    let s4 = λ (o : Option ℕ). record s { node = record n { load_m = o; nic_temp_c = none } } in
    let s5 = λ (o : Option ℤ). record s { node = record n { nic_temp_c = o } } in
    Reads-if_some n.nic_temp_c s5 t_node_nic_temp_c i32_bytes
      (λ v e. (omega arith, nic_temp_arm _ v (Each-at IsI32 n.nic_temp_c v t.nic_temp_typed e)))
      (Reads-if_some n.load_m s4 t_node_load_m (λ v. le_bytes 4 v)
        (λ v e. (omega arith, load_arm _ v (Each-at IsU32 n.load_m v t.load_typed e)))
        (Reads-if_some n.spool_free_bytes s3 t_node_spool_free (λ v. le_bytes 8 v)
          (λ v e. (omega arith, spool_arm _ v (Each-at IsU64 n.spool_free_bytes v t.spool_typed e)))
          (Reads-if_some n.throttle_flags s2 t_node_throttle (λ v. le_bytes 4 v)
            (λ v e.
              (omega arith, throttle_arm _ v (Each-at IsU32 n.throttle_flags v t.throttle_typed e)))
            (Reads-if_some n.temp_mc s1 t_node_temp_mc i32_bytes
              (λ v e. (omega arith, temp_arm _ v (Each-at IsI32 n.temp_mc v t.temp_mc_typed e)))
              h))))

Reads-geometry :
    (r : CsiRecord) {out : List ℕ}
    → IsTyped r
    → Reads out (node_read r)
    → Reads
        (put_tlv
          (put_tlv (put_tlv (put_tlv out t_seq (r.seq ∷ [])) t_nrx (r.nrx ∷ [])) t_ntx (r.ntx ∷ []))
          t_ntone
          (le_bytes 2 r.ntone))
        (geometry_read r)
unfolding decode_field
Reads-geometry r t h =
    let s = record (node_read r) { seq = r.seq; nrx = some r.nrx; ntx = some r.ntx } in
    Reads-put t_ntone (le_bytes 2 r.ntone) (omega arith) (ntone_arm s r.ntone t.ntone_typed) (
      Reads-put t_ntx (r.ntx ∷ []) (omega arith) refl (
        Reads-put t_nrx (r.nrx ∷ []) (omega arith) refl
          (Reads-put t_seq (r.seq ∷ []) (omega arith) refl h)))

Reads-encode_payload : (r : CsiRecord) → IsTyped r → Reads (encode_payload r) (all_read r)
unfolding encode_payload
Reads-encode_payload r t =
    let geometry = Reads-geometry r t (
      Reads-node r.node (driver_read r) t.node_typed
        (Reads-driver r t (Reads-labels r (Reads-clocks r t)))) in
    let s1 = record (geometry_read r) { src_mac = r.src_mac } in
    let s2 = record s1 { channel = r.channel } in
    let s3 = record s2 { width = Width.from_code (Width.to_code r.width) } in
    let s4 = record s3 { rssi = r.rssi } in
    Reads-put t_csi_matrix (i16s_to_bytes r.iq)
      (omega (arith, length-i16s_to_bytes r.iq, t.iq_fits)) (iq_arm s4 r.iq t.iq_typed)
      (Reads-put t_rssi (i16s_to_bytes r.rssi)
        (omega (arith, length-i16s_to_bytes r.rssi, t.rssi_fits)) (rssi_arm s3 r.rssi t.rssi_typed)
        (Reads-put t_width (le_bytes 2 (Width.to_code r.width)) (omega arith)
          (width_arm s2 (Width.to_code r.width) t.width_typed)
          (Reads-put t_channel (le_bytes 4 r.channel) (omega arith)
            (channel_arm s1 r.channel t.channel_typed)
            (Reads-put t_src_mac r.src_mac (omega (arith, t.mac_typed))
              (mac_arm (geometry_read r) r.src_mac t.mac_typed) geometry))))

-- The record as reading gives it back: an enumeration's code is decoded anew, and a missing
-- bandwidth is recovered from the rate word.
abbrev pub restored : CsiRecord → CsiRecord
restored r = record r {
  phy = Option.map relabel r.phy;
  bw_antsel = or_decoded (Option.map recode r.bw_antsel) r.rnf;
  width = Width.from_code (Width.to_code r.width);
}

decode_payload-eq-finish : (out : List ℕ) (s : Fields) → Reads out s → decode_payload out ≡ finish s
unfolding decode_payload
decode_payload-eq-finish out s h =
    ap (λ m. m >>= finish)
      (ap (λ b. decode_loop (length b) b initial) h.bytes
        ∙ decode_loop-frames h.fields (length (frames h.fields)) initial h.fits (omega arith)
        ∙ h.result)

-- Decoding the payload of any record whose fields lie in their Rust types, and whose arrays are
-- shorter than 4 GiB, succeeds and gives the restored record.
pub decode_payload-encode_payload :
    (r : CsiRecord) → IsTyped r → decode_payload (encode_payload r) ≡ ok (restored r)
unfolding finish
decode_payload-encode_payload r t =
    decode_payload-eq-finish (encode_payload r) (all_read r) (Reads-encode_payload r t)
