-- ===== src/Csiq/Tlv/Reencode.antt =====
-- Decoding bytes and encoding the record again, for a payload that some
-- other writer made.
use csid.Prelude.{ℕ, ◌≡◌, refl, ap, ◌∙◌, Option, none, some, List, [], ◌∷◌, ◌++◌}
use csid.Prelude.{length, All}
use csid.Prelude.Bytes.{IsByte, le_bytes}
use mathlib.Core.Path.{subst}
use mathlib.Core.Option
use csid.Csiq.Error.{CsiqError, ok, bind_elim, ok_or, ok-injective}
use csid.Csiq.Width
use csid.Csiq.Bandwidth
use csid.Csiq.Modulation
use csid.Csiq.Record.{
  CsiRecord, PhyLabel, BwAntsel, IsTypedPhy, IsTypedBwAntsel, IsTyped, Each, IsU32, IsU16,
}
use csid.Csiq.Tlv.Encode.{encode_payload}
use csid.Csiq.Tlv.Decode.{Fields, initial, decode_field, or_decoded, finish, decode_payload}
use csid.Csiq.Tlv.Frames.{Field, Fits, frames, apply_fields}
use csid.Csiq.Tlv.RoundTrip.{restored, relabel, recode, decode_payload-encode_payload}
use csid.Csiq.Tlv.Robust.{decode_payload-eq-ok}
use csid.Csiq.Tlv.Typed.{
  IsDecodedPhy, IsDecodedBw, IsTypedFields, decode_field-IsTyped, initial-IsTyped,
}
use csid.Csiq.Raw.Typed.{decode_bw_antsel-IsTyped}
use csid.Csiq.Raw.Export.{recode-decode_bw_antsel}

-- The bytes of every value.
abbrev HasBytes : Field → Type 0
HasBytes (ty, val) = All IsByte val

All-right {ℓ κ} : {A : Type ℓ} (P : A → Type κ) (xs ys : List A) → All P (xs ++ ys) → All P ys
All-right P [] ys h = h
All-right P (x ∷ xs) ys (h, hs) = All-right P xs ys hs

All-left {ℓ κ} : {A : Type ℓ} (P : A → Type κ) (xs ys : List A) → All P (xs ++ ys) → All P xs
All-left P [] ys h = tt
All-left P (x ∷ xs) ys (h, hs) = (h, All-left P xs ys hs)

frames-HasBytes : (fs : List Field) → All IsByte (frames fs) → All HasBytes fs
unfolding frames
frames-HasBytes [] h = tt
frames-HasBytes ((ty, val) ∷ fs) (_, h) =
    let tail = All-right IsByte (le_bytes 4 (length val)) (val ++ frames fs) h in
    (
      All-left IsByte val (frames fs) tail,
      frames-HasBytes fs (All-right IsByte val (frames fs) tail),
    )

apply_fields-IsTyped :
    (fs : List Field) (s s' : Fields)
    → IsTypedFields s
    → All HasBytes fs
    → All Fits fs
    → apply_fields s fs ≡ ok s'
    → IsTypedFields s'
unfolding apply_fields
apply_fields-IsTyped [] s s' t hb hf e = subst IsTypedFields (ok-injective e) t
apply_fields-IsTyped ((ty, val) ∷ fs) s s' t (hb, hbs) (hf, hfs) e =
    bind_elim (decode_field s ty val) _ e λ s1 e1 k1.
      apply_fields-IsTyped fs s1 s' (decode_field-IsTyped s s1 ty val t hb hf e1) hbs hfs k1

Each-ok_or {ℓ κ} :
    {A : Type ℓ} (P : A → Type κ) (o : Option A) (x : CsiqError) (a : A)
    → Each P o
    → ok_or o x ≡ ok a
    → P a
Each-ok_or P none x a h e = cc
Each-ok_or P (some b) x a h e = subst P (ok-injective e) h

relabel_decoded : (o : Option PhyLabel) → Each IsDecodedPhy o → Option.map relabel o ≡ o
relabel_decoded none h = refl
relabel_decoded (some p) h = λ i.
    some (record p { modulation = Modulation.from_rnf_type-to_code p.modulation h.canonical i })

recode_decoded :
    (o : Option BwAntsel) (rnf : ℕ)
    → Each IsDecodedBw o
    → or_decoded (Option.map recode (or_decoded o rnf)) rnf ≡ or_decoded o rnf
recode_decoded none rnf h = recode-decode_bw_antsel rnf
recode_decoded (some b) rnf h =
    λ i. some (record b { bandwidth = Bandwidth.from_code-to_code b.bandwidth h.canonical i })

phy_typed : (o : Option PhyLabel) → Each IsDecodedPhy o → Each IsTypedPhy o
phy_typed none h = tt
phy_typed (some p) h = h.typed

bw_typed :
    (o : Option BwAntsel) (rnf : ℕ) → Each IsDecodedBw o → Each IsTypedBwAntsel (or_decoded o rnf)
bw_typed none rnf h = decode_bw_antsel-IsTyped rnf
bw_typed (some b) rnf h = h.typed

-- A width as its code gives it back.
abbrev pub renamed_width : CsiRecord → CsiRecord
renamed_width r = record r { width = Width.from_code (Width.to_code r.width) }

finish-IsTyped :
    (s : Fields) (r : CsiRecord)
    → IsTypedFields s
    → finish s ≡ ok r
    → IsTyped r × (restored r ≡ renamed_width r)
unfolding finish
finish-IsTyped s r t e = bind_elim (ok_or s.ftm _) _ e λ ftm e1 k1.
    bind_elim (ok_or s.nrx _) _ k1 λ nrx e2 k2. bind_elim (ok_or s.ntx _) _ k2 λ ntx e3 k3.
      bind_elim (ok_or s.ntone _) _ k3 λ ntone e4 k4.
        subst (λ x. IsTyped x × (restored x ≡ renamed_width x)) (ok-injective k4)
          (
            record {
              ftm_typed = Each-ok_or IsU32 s.ftm _ ftm t.ftm_typed e1;
              us_typed = t.us_typed;
              unix_typed = t.unix_typed;
              rnf_typed = t.rnf_typed;
              phy_typed = phy_typed s.phy t.phy_typed;
              bw_antsel_typed = bw_typed s.bw_antsel s.rnf t.bw_typed;
              mono_typed = t.mono_typed;
              vendor_fits = t.vendor_fits;
              vendor_bytes = t.vendor_bytes;
              node_typed = t.node_typed;
              seq_typed = t.seq_typed;
              nrx_typed = Each-ok_or IsByte s.nrx _ nrx t.nrx_typed e2;
              ntx_typed = Each-ok_or IsByte s.ntx _ ntx t.ntx_typed e3;
              ntone_typed = Each-ok_or IsU16 s.ntone _ ntone t.ntone_typed e4;
              rssi_typed = t.rssi_typed;
              rssi_fits = t.rssi_fits;
              mac_typed = t.mac_typed;
              mac_bytes = t.mac_bytes;
              channel_typed = t.channel_typed;
              width_typed = t.width_typed;
              iq_typed = t.iq_typed;
              iq_fits = t.iq_fits;
            },
            λ i. record {
              ftm = ftm;
              us = s.us;
              unix_ts_ns = s.unix_ts_ns;
              rnf = s.rnf;
              phy = relabel_decoded s.phy t.phy_typed i;
              bw_antsel = recode_decoded s.bw_antsel s.rnf t.bw_typed i;
              mono_us = s.mono_us;
              vendor_hdr = s.vendor_hdr;
              node = s.node;
              seq = s.seq;
              nrx = nrx;
              ntx = ntx;
              ntone = ntone;
              rssi = s.rssi;
              src_mac = s.src_mac;
              channel = s.channel;
              width = Width.from_code (Width.to_code s.width);
              iq = s.iq;
            },
          )

-- A record that decodes from bytes has every field in its Rust type, and encoding it and decoding
-- that gives the same record but for the width, which is read anew from its code.
pub reencode :
    (p : List ℕ) (r : CsiRecord)
    → All IsByte p
    → decode_payload p ≡ ok r
    → IsTyped r × (decode_payload (encode_payload r) ≡ ok (renamed_width r))
reencode p r h e =
    let (fs, ep, hf, ea) = decode_payload-eq-ok p r h e in
    let bytes = frames-HasBytes fs (subst (All IsByte) ep h) in
    bind_elim (apply_fields initial fs) finish ea λ s e1 k1.
      let (typed, same) =
        finish-IsTyped s r (apply_fields-IsTyped fs initial s initial-IsTyped bytes hf e1) k1 in
      (typed, decode_payload-encode_payload r typed ∙ ap ok same)
