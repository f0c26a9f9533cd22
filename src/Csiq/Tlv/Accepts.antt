-- ===== src/Csiq/Tlv/Accepts.antt =====
-- What the loop of `decode_payload` accepts, as a list of fields.
use csid.Prelude.{ℕ, zero, suc, ◌<◌, ◌≡◌, refl, ap, ◌∙◌, List, [], ◌∷◌, ◌++◌, arith}
use csid.Prelude.{length, All, length-take, take-append-drop}
use csid.Prelude.Bytes.{IsByte, le_bytes, of_le_bytes-lt, le_bytes-of_le_bytes}
use csid.Prelude.Bytes.{le_bytes-of_le_bytes}
use csid.Csiq.Error.{Result, ok, bind_elim}
use mathlib.Core.Path.{subst}
use csid.Csiq.Tlv.Decode.{
  take_bytes, read_u8, read_u32, read_tlv, Fields, decode_field, decode_loop,
}
use csid.Csiq.Tlv.Frames.{Field, Fits, frames, apply_fields}

All-split {ℓ κ} :
    {A : Type ℓ} (P : A → Type κ) (xs ys : List A) → All P (xs ++ ys) → All P xs × All P ys
All-split P [] ys h = (tt, h)
All-split P (x ∷ xs) ys (h, hs) = let (l, r) = All-split P xs ys hs in ((h, l), r)

pub take_bytes-eq-ok :
    (n : ℕ) (b s rest : List ℕ) → take_bytes n b ≡ ok (s, rest) → (b ≡ s ++ rest) × (length s ≡ n)
unfolding take_bytes
take_bytes-eq-ok n b s rest e = ground (arith, take-append-drop n b, length-take n b)

read_u8-eq-ok : (b : List ℕ) (v : ℕ) (rest : List ℕ) → read_u8 b ≡ ok (v, rest) → b ≡ v ∷ rest
unfolding read_u8
read_u8-eq-ok [] v rest e = cc
read_u8-eq-ok (x ∷ b) v rest e = ground arith

read_u32-eq-ok :
    (b : List ℕ) (v : ℕ) (rest : List ℕ)
    → All IsByte b
    → read_u32 b ≡ ok (v, rest)
    → (b ≡ le_bytes 4 v ++ rest) × (v < 4294967296)
unfolding read_u32
read_u32-eq-ok [] v rest h e = cc
read_u32-eq-ok (b0 ∷ []) v rest h e = cc
read_u32-eq-ok (b0 ∷ b1 ∷ []) v rest h e = cc
read_u32-eq-ok (b0 ∷ b1 ∷ b2 ∷ []) v rest h e = cc
read_u32-eq-ok (b0 ∷ b1 ∷ b2 ∷ b3 ∷ b) v rest (h0, (h1, (h2, (h3, h)))) e = ground (
  arith,
  le_bytes-of_le_bytes (b0 ∷ b1 ∷ b2 ∷ b3 ∷ []) (h0, (h1, (h2, (h3, tt)))),
  of_le_bytes-lt (b0 ∷ b1 ∷ b2 ∷ b3 ∷ []) (h0, (h1, (h2, (h3, tt)))),
)

read_tlv-eq-ok :
    (b : List ℕ) (ty : ℕ) (val rest : List ℕ)
    → All IsByte b
    → read_tlv b ≡ ok (ty, val, rest)
    → (b ≡ ty ∷ (le_bytes 4 (length val) ++ (val ++ rest))) × (length val < 4294967296)
unfolding read_tlv
read_tlv-eq-ok b ty val rest h e = bind_elim (read_u8 b) _ e λ p e1 k1.
    bind_elim (read_u32 p.1) _ k1 λ q e2 k2.
      bind_elim (take_bytes q.0 q.1) _ k2
        λ s e3 k3. parts p.0 p.1 q.0 q.1 s.0 s.1 (read_u8-eq-ok b p.0 p.1 e1) e2 e3 k3
  where
    parts :
        (ty1 : ℕ) (b1 : List ℕ) (len : ℕ) (b2 val1 b3 : List ℕ)
        → b ≡ ty1 ∷ b1
        → read_u32 b1 ≡ ok (len, b2)
        → take_bytes len b2 ≡ ok (val1, b3)
        → ◌≡◌ {A = Result (ℕ × List ℕ × List ℕ)} (ok (ty1, val1, b3)) (ok (ty, val, rest))
        → (b ≡ ty ∷ (le_bytes 4 (length val) ++ (val ++ rest))) × (length val < 4294967296)
    parts ty1 b1 len b2 val1 b3 eb e2 e3 k =
        let hs : All IsByte b1 = (subst (All IsByte) eb h).1 in
        ground (arith, read_u32-eq-ok b1 len b2 hs e2, take_bytes-eq-ok len b2 val1 b3 e3)

pub decode_loop-eq-ok :
    (fuel : ℕ) (b : List ℕ) (acc out : Fields)
    → All IsByte b
    → decode_loop fuel b acc ≡ ok out
    → (fs : List Field) × (b ≡ frames fs) × All Fits fs × (apply_fields acc fs ≡ ok out)
unfolding decode_loop frames apply_fields
decode_loop-eq-ok zero [] acc out h e = ([], refl, tt, e)
decode_loop-eq-ok (suc fuel) [] acc out h e = ([], refl, tt, e)
decode_loop-eq-ok zero (x ∷ b) acc out h e = cc
decode_loop-eq-ok (suc fuel) (x ∷ b) acc out h e = bind_elim (read_tlv (x ∷ b)) _ e λ p e1 k1.
    bind_elim (decode_field acc p.0 p.1) _ k1 λ acc' e2 k2.
      let (eb, fits) = read_tlv-eq-ok (x ∷ b) p.0 p.1 p.2 h e1 in
      let hs : All IsByte p.2 =
        (All-split IsByte p.1 p.2
          (All-split IsByte (p.0 ∷ le_bytes 4 (length p.1)) (p.1 ++ p.2)
            (subst (All IsByte) eb h)).1).1 in
      let (fs, er, hf, ea) = decode_loop-eq-ok fuel p.2 acc' out hs k2 in
      (
        (p.0, p.1) ∷ fs,
        eb ∙ ap (λ t. p.0 ∷ (le_bytes 4 (length p.1) ++ (p.1 ++ t))) er,
        (fits, hf),
        rw e2 ea,
      )
