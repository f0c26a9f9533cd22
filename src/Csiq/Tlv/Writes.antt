-- ===== src/Csiq/Tlv/Writes.antt =====
-- The invariant of the writer: what has been written so far is the bytes of some fields, and
-- reading them gives known locals.
use csid.Prelude.{
  ℕ, ◌%◌, ◌<◌, ◌≡◌, refl, sym, ap, ◌∙◌, Option, none, some, List, [], ◌∷◌, ◌++◌, append-nil, arith,
}
use csid.Prelude.{length, All, All-append}
use csid.Csiq.Error.{ok, ◌>>=◌}
use csid.Csiq.Tlv.Encode.{put_tlv, if_some}
use csid.Csiq.Tlv.Decode.{Fields, initial, decode_field}
use csid.Csiq.Tlv.Frames.{Field, Fits, frames, apply_fields, frames-append, apply_fields-append}

pub record Reads (out : List ℕ) (s : Fields) : Type 0 where
  pub fields : List Field
  pub bytes : out ≡ frames fields
  pub fits : All Fits fields
  pub result : apply_fields initial fields ≡ ok s

pub Reads-start : Reads [] initial
unfolding frames apply_fields
Reads-start = record { fields = []; bytes = refl; fits = tt; result = refl }

put_tlv-frames :
    (out : List ℕ) (ty : ℕ) (val : List ℕ)
    → length val < 4294967296
    → put_tlv out ty val ≡ out ++ frames ((ty, val) ∷ [])
unfolding put_tlv frames
put_tlv-frames out ty val h =
    let fits : length val % 4294967296 ≡ length val = omega arith in rw (fits, append-nil val)

apply_one :
    (s s' : Fields) (ty : ℕ) (val : List ℕ)
    → decode_field s ty val ≡ ok s'
    → apply_fields s ((ty, val) ∷ []) ≡ ok s'
unfolding apply_fields
apply_one s s' ty val e = rw e

-- One more field keeps the invariant.
pub Reads-put :
    {out : List ℕ} {s s' : Fields} (ty : ℕ) (val : List ℕ)
    → length val < 4294967296
    → decode_field s ty val ≡ ok s'
    → Reads out s
    → Reads (put_tlv out ty val) s'
Reads-put {out} {s} {s'} ty val h e r = record {
  fields = r.fields ++ ((ty, val) ∷ []);
  bytes =
      put_tlv-frames out ty val h
      ∙ ap (λ t. t ++ frames ((ty, val) ∷ [])) r.bytes
      ∙ sym (frames-append r.fields ((ty, val) ∷ []));
  fits = All-append Fits r.fields ((ty, val) ∷ []) r.fits (h, tt);
  result =
      apply_fields-append r.fields ((ty, val) ∷ []) initial
      ∙ ap (λ m. m >>= λ t. apply_fields t ((ty, val) ∷ [])) r.result
      ∙ apply_one s s' ty val e;
}

-- An optional field keeps it, if the locals without it are those of `none`.
pub Reads-if_some {ℓ} :
    {A : Type ℓ} {out : List ℕ} (o : Option A) (s : Option A → Fields) (ty : ℕ) (f : A → List ℕ)
    → ((a : A)
        → o ≡ some a
        → (length (f a) < 4294967296) × (decode_field (s none) ty (f a) ≡ ok (s (some a))))
    → Reads out (s none)
    → Reads (if_some o out (λ a. put_tlv out ty (f a))) (s o)
Reads-if_some none s ty f h r = r
Reads-if_some (some a) s ty f h r = let (fits, arm) = h a refl in Reads-put ty (f a) fits arm r
