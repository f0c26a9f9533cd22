-- ===== src/Csiq/Tlv/Robust.antt =====
-- `decode_payload` on any payload, well formed or not: its end, the payloads that it accepts, and the
-- types that it does not know.
use csid.Prelude.{
  ℕ, zero, suc, ◌≤◌, ◌<◌, ◌≡◌, refl, sym, ap, ◌∙◌, ◌⊎◌, inl, inr, Bool, true, false, ◌||◌, List, [],
  ◌∷◌, ◌++◌, arith,
}
use csid.Prelude.{ltb, ◌==◌, if◌then◌else◌, length, All, length-append, length-drop, All-append}
use csid.Prelude.Bytes.{IsByte}
use mathlib.Core.Path.{fun_ext}
use csid.Csiq.Error.{CsiqError, Result, ok, err, stuck, ◌>>=◌, bind_elim}
use csid.Csiq.Record.{CsiRecord}
use csid.Csiq.Tlv.Types.{
  t_ftm, t_us, t_unix_ts_ns, t_rnf, t_phy, t_nrx, t_ntx, t_ntone, t_src_mac, t_channel, t_width,
  t_rssi, t_seq, t_csi_matrix, t_bw_antsel, t_mono_us, t_vendor_hdr, t_node_temp_mc,
  t_node_throttle, t_node_spool_free, t_node_load_m, t_node_nic_temp_c,
}
use csid.Csiq.Tlv.Decode.{
  take_bytes, read_u8, read_u32, read_tlv, Fields, initial, decode_field, decode_loop, finish,
  decode_payload,
}
use csid.Csiq.Tlv.Frames.{Field, Fits, frames, apply_fields, decode_loop-frames}
use csid.Csiq.Tlv.Accepts.{take_bytes-eq-ok, decode_loop-eq-ok}

-- Results that the code itself can return.
abbrev Ends {ℓ} : {A : Type ℓ} → Result A → Type 0
Ends (ok a) = Unit {0}
Ends (err e) = Unit {0}
Ends stuck = ⊥

Ends-bind {ℓ κ} :
    {A : Type ℓ} {B : Type κ} (m : Result A) (f : A → Result B)
    → Ends m
    → ((a : A) → m ≡ ok a → Ends (f a))
    → Ends (m >>= f)
Ends-bind (ok a) f h k = k a refl
Ends-bind (err e) f h k = tt
Ends-bind stuck f h k = h

Ends-if {ℓ} : {A : Type ℓ} (b : Bool) (x y : Result A) → Ends x → Ends y → Ends (if b then x else y)
Ends-if true x y hx hy = hx
Ends-if false x y hx hy = hy

take_bytes-Ends : (n : ℕ) (b : List ℕ) → Ends (take_bytes n b)
unfolding take_bytes
take_bytes-Ends n b = Ends-if (ltb (length b) n) _ _ tt tt

decode_field-Ends : (s : Fields) (ty : ℕ) (val : List ℕ) → Ends (decode_field s ty val)
unfolding decode_field
decode_field-Ends s ty val = ground arith

read_u8-Ends : (b : List ℕ) → Ends (read_u8 b)
unfolding read_u8
read_u8-Ends b = ground arith

read_u32-Ends : (b : List ℕ) → Ends (read_u32 b)
unfolding read_u32
read_u32-Ends b = ground arith

read_tlv-Ends : (b : List ℕ) → Ends (read_tlv b)
unfolding read_tlv
read_tlv-Ends b = Ends-bind (read_u8 b) _ (read_u8-Ends b) λ p e.
    Ends-bind (read_u32 p.1) _ (read_u32-Ends p.1)
      λ q e2. Ends-bind (take_bytes q.0 q.1) _ (take_bytes-Ends q.0 q.1) λ s e3. tt

read_u8-shorter :
    (b : List ℕ) (v : ℕ) (rest : List ℕ) → read_u8 b ≡ ok (v, rest) → length rest < length b
unfolding read_u8
read_u8-shorter [] v rest e = cc
read_u8-shorter (x ∷ b) v rest e = ground arith

read_u32-shorter :
    (b : List ℕ) (v : ℕ) (rest : List ℕ) → read_u32 b ≡ ok (v, rest) → length rest ≤ length b
unfolding read_u32
read_u32-shorter b v rest e = ground (arith, length-drop 4 b)

read_tlv-shorter :
    (b : List ℕ) (t : ℕ × List ℕ × List ℕ) → read_tlv b ≡ ok t → length t.2 < length b
unfolding read_tlv
read_tlv-shorter b t e = bind_elim (read_u8 b) _ e λ p e1 k1.
    bind_elim (read_u32 p.1) _ k1 λ q e2 k2.
      bind_elim (take_bytes q.0 q.1) _ k2 λ s e3 k3. parts p.0 p.1 q.0 q.1 s.0 s.1 e1 e2 e3 k3
  where
    parts :
        (ty : ℕ) (b1 : List ℕ) (len : ℕ) (b2 val b3 : List ℕ)
        → read_u8 b ≡ ok (ty, b1)
        → read_u32 b1 ≡ ok (len, b2)
        → take_bytes len b2 ≡ ok (val, b3)
        → ◌≡◌ {A = Result (ℕ × List ℕ × List ℕ)} (ok (ty, val, b3)) (ok t)
        → length t.2 < length b
    parts ty b1 len b2 val b3 e1 e2 e3 k = ground (
      arith,
      read_u8-shorter b ty b1 e1,
      read_u32-shorter b1 len b2 e2,
      take_bytes-eq-ok len b2 val b3 e3,
      length-append val b3,
    )

decode_loop-Ends :
    (fuel : ℕ) (b : List ℕ) (acc : Fields) → length b ≤ fuel → Ends (decode_loop fuel b acc)
unfolding decode_loop
decode_loop-Ends zero [] acc h = tt
decode_loop-Ends (suc fuel) [] acc h = tt
decode_loop-Ends zero (x ∷ b) acc h = absurd (omega arith)
decode_loop-Ends (suc fuel) (x ∷ b) acc h =
    Ends-bind (read_tlv (x ∷ b)) _ (read_tlv-Ends (x ∷ b)) λ t e.
      Ends-bind (decode_field acc t.0 t.1) _ (decode_field-Ends acc t.0 t.1)
        λ acc' e2. decode_loop-Ends fuel t.2 acc' (omega (arith, read_tlv-shorter (x ∷ b) t e))

finish-Ends : (s : Fields) → Ends (finish s)
unfolding finish
finish-Ends s = ground arith

-- On every payload, well formed or not, the loop ends: the answer is a record or an error.
pub decode_payload_total :
    (p : List ℕ)
    → ((r : CsiRecord) × (decode_payload p ≡ ok r)) ⊎ ((e : CsiqError) × (decode_payload p ≡ err e))
unfolding decode_payload
decode_payload_total p = cases (decode_payload p) (
    Ends-bind (decode_loop (length p) p initial) finish
      (decode_loop-Ends (length p) p initial (omega arith)) (λ s e. finish-Ends s))
  where
    cases :
        (m : Result CsiRecord)
        → Ends m
        → ((r : CsiRecord) × (m ≡ ok r)) ⊎ ((e : CsiqError) × (m ≡ err e))
    cases (ok r) h = inl (r, refl)
    cases (err e) h = inr (e, refl)
    cases stuck h = absurd h

-- A payload of bytes that decodes is the framing of some fields, their values read by the match
-- arms in order, and its record is what the arms leave.
pub decode_payload-eq-ok :
    (p : List ℕ) (r : CsiRecord)
    → All IsByte p
    → decode_payload p ≡ ok r
    → (fs : List Field) × (p ≡ frames fs)
      × All Fits fs
      × ((apply_fields initial fs >>= finish) ≡ ok r)
unfolding decode_payload
decode_payload-eq-ok p r h e = bind_elim (decode_loop (length p) p initial) finish e λ s e1 e2.
    let (fs, ep, hf, ea) = decode_loop-eq-ok (length p) p initial s h e1 in (fs, ep, hf, rw ea e2)

-- The types that the match names.
unfoldable pub is_known : ℕ → Bool
is_known ty =
    (ty == t_ftm)
    || (ty == t_us)
    || (ty == t_unix_ts_ns)
    || (ty == t_rnf)
    || (ty == t_phy)
    || (ty == t_nrx)
    || (ty == t_ntx)
    || (ty == t_ntone)
    || (ty == t_src_mac)
    || (ty == t_channel)
    || (ty == t_width)
    || (ty == t_rssi)
    || (ty == t_seq)
    || (ty == t_csi_matrix)
    || (ty == t_bw_antsel)
    || (ty == t_mono_us)
    || (ty == t_vendor_hdr)
    || (ty == t_node_temp_mc)
    || (ty == t_node_throttle)
    || (ty == t_node_spool_free)
    || (ty == t_node_load_m)
    || (ty == t_node_nic_temp_c)

unknown_arm :
    (s : Fields) (ty : ℕ) (val : List ℕ) → is_known ty ≡ false → decode_field s ty val ≡ ok s
unfolding is_known decode_field
unknown_arm s ty val h = ground arith

pub decode_payload-frames :
    (fs : List Field)
    → All Fits fs
    → decode_payload (frames fs) ≡ (apply_fields initial fs >>= finish)
unfolding decode_payload
decode_payload-frames fs h =
    ap (λ m. m >>= finish) (decode_loop-frames fs (length (frames fs)) initial h (omega arith))

skip_unknown :
    (fs gs : List Field) (ty : ℕ) (val : List ℕ) (s : Fields)
    → is_known ty ≡ false
    → apply_fields s (fs ++ ((ty, val) ∷ gs)) ≡ apply_fields s (fs ++ gs)
unfolding apply_fields
skip_unknown [] gs ty val s h = rw (unknown_arm s ty val h)
skip_unknown ((t, v) ∷ fs) gs ty val s h =
    ap (λ k. decode_field s t v >>= k) (fun_ext (λ a. skip_unknown fs gs ty val a h))

-- A field of a type that the match does not name, put anywhere between the fields of a payload,
-- does not change what the payload decodes to, an error included.
pub decode_payload-skip_unknown :
    (fs gs : List Field) (ty : ℕ) (val : List ℕ)
    → is_known ty ≡ false
    → All Fits fs
    → Fits (ty, val)
    → All Fits gs
    → decode_payload (frames (fs ++ ((ty, val) ∷ gs))) ≡ decode_payload (frames (fs ++ gs))
decode_payload-skip_unknown fs gs ty val h hf hv hg =
    decode_payload-frames (fs ++ ((ty, val) ∷ gs)) (All-append Fits fs ((ty, val) ∷ gs) hf (hv, hg))
    ∙ ap (λ m. m >>= finish) (skip_unknown fs gs ty val initial h)
    ∙ sym (decode_payload-frames (fs ++ gs) (All-append Fits fs gs hf hg))
