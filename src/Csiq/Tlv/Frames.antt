-- ===== src/Csiq/Tlv/Frames.antt =====
-- The abstract view of a TLV payload: a list of fields, and the reading of its bytes as a fold over
-- it.
use csid.Prelude.{
  ℕ, zero, suc, ◌≤◌, ◌<◌, ◌≡◌, refl, sym, ap, ◌∙◌, false, List, [], ◌∷◌, ◌++◌, append_assoc, arith,
}
use csid.Prelude.{ltb, le→ltb, length, All, length-append, take-append, drop-append}
use csid.Prelude.Bytes.{le_bytes, of_le_bytes-le_bytes}
use csid.Csiq.Error.{Result, ok, ◌>>=◌, >>=_assoc}
use mathlib.Core.Path.{fun_ext}
use csid.Csiq.Tlv.Decode.{
  take_bytes, read_u8, read_u32, read_tlv, Fields, decode_field, decode_loop,
}

abbrev pub Field : Type 0
Field = ℕ × List ℕ

-- A value's length fits the u32 in front of it.
abbrev pub Fits : Field → Type 0
Fits (ty, val) = length val < 4294967296

-- The bytes of a list of fields: a type byte, a little-endian length, the value.
unfoldable pub frames : List Field → List ℕ
frames [] = []
frames ((ty, val) ∷ fs) = ty ∷ (le_bytes 4 (length val) ++ (val ++ frames fs))

-- The match arms, field after field.
unfoldable pub apply_fields : Fields → List Field → Result Fields
apply_fields acc [] = ok acc
apply_fields acc ((ty, val) ∷ fs) = do acc' ← decode_field acc ty val; apply_fields acc' fs

pub frames-append : (fs gs : List Field) → frames (fs ++ gs) ≡ frames fs ++ frames gs
unfolding frames
frames-append [] gs = refl
frames-append ((ty, val) ∷ fs) gs =
    rw (frames-append fs gs, append_assoc val (frames fs) (frames gs))

pub apply_fields-append :
    (fs gs : List Field) (acc : Fields)
    → apply_fields acc (fs ++ gs) ≡ (apply_fields acc fs >>= λ acc'. apply_fields acc' gs)
unfolding apply_fields
apply_fields-append [] gs acc = refl
apply_fields-append ((ty, val) ∷ fs) gs acc =
    ap (λ k. decode_field acc ty val >>= k) (fun_ext (λ a. apply_fields-append fs gs a))
    ∙ sym (>>=_assoc (decode_field acc ty val) _ _)

pub take_bytes-append : (s rest : List ℕ) → take_bytes (length s) (s ++ rest) ≡ ok (s, rest)
unfolding take_bytes
take_bytes-append s rest =
    let fits : ltb (length (s ++ rest)) (length s) ≡ false =
      le→ltb (length (s ++ rest)) (length s) (omega (arith, length-append s rest)) in
    rw (fits, take-append s rest, drop-append s rest)

read_u32_lem :
    (n : ℕ) (rest : List ℕ) → n < 4294967296 → read_u32 (le_bytes 4 n ++ rest) ≡ ok (n, rest)
unfolding read_u32
read_u32_lem n rest h =
    let enough : ltb (length (le_bytes 4 n ++ rest)) 4 ≡ false =
      le→ltb (length (le_bytes 4 n ++ rest)) 4 (omega arith) in
    rw enough (ap (λ (t : ℕ). ok (t, rest)) (of_le_bytes-le_bytes 4 n h))

read_u8_lem : (b : ℕ) (rest : List ℕ) → read_u8 (b ∷ rest) ≡ ok (b, rest)
unfolding read_u8
read_u8_lem b rest =
    let enough : ltb (suc (length rest)) 1 ≡ false = le→ltb (suc (length rest)) 1 (omega arith) in
    rw enough

-- One round of the loop on the bytes of a field gives the field back, and what follows it.
pub read_tlv_lem :
    (ty : ℕ) (val rest : List ℕ)
    → length val < 4294967296
    → read_tlv (ty ∷ (le_bytes 4 (length val) ++ (val ++ rest))) ≡ ok (ty, val, rest)
unfolding read_tlv
read_tlv_lem ty val rest h =
    rw (read_u8_lem ty (le_bytes 4 (length val) ++ (val ++ rest)))
      (rw (read_u32_lem (length val) (val ++ rest) h) (rw (take_bytes-append val rest)))

-- Reading the bytes of fields is the fold of the match arms over the fields.
pub decode_loop-frames :
    (fs : List Field) (fuel : ℕ) (acc : Fields)
    → All Fits fs
    → length (frames fs) ≤ fuel
    → decode_loop fuel (frames fs) acc ≡ apply_fields acc fs
unfolding frames decode_loop apply_fields
decode_loop-frames [] zero acc h f = refl
decode_loop-frames [] (suc fuel) acc h f = refl
decode_loop-frames ((ty, val) ∷ fs) zero acc h f = absurd (omega arith)
decode_loop-frames ((ty, val) ∷ fs) (suc fuel) acc (h, hs) f =
    rw (read_tlv_lem ty val (frames fs) h) (
      ap (λ k. decode_field acc ty val >>= k)
        (fun_ext
          (λ a. decode_loop-frames fs fuel a hs (omega (arith, length-append val (frames fs))))))
