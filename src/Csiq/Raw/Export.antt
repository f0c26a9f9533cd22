-- ===== src/Csiq/Raw/Export.antt =====
-- The way from `capture.raw` to `capture.csiq`: a record of the raw parser through the record codec.
use csid.Prelude.{ℕ, ◌≤◌, ◌≡◌, refl, ap, ◌∙◌, inl, inr, Bool, true, none, List, arith}
use csid.Prelude.{◌==◌, if◌then◌else◌, Bool-cases, length, All}
use csid.Prelude.Bytes.{IsByte}
use mathlib.Core.Path.{subst}
use mathlib.Core.Option
use csid.Csiq.Error.{ok}
use csid.Csiq.Width.{Width}
use csid.Csiq.Width
use csid.Csiq.Bandwidth
use csid.Csiq.Modulation
use csid.Csiq.Record.{CsiRecord, IsU16, IsU32, IsTyped}
use csid.Csiq.RateFlags.{decode_bw_antsel, decode_rnf}
use csid.Csiq.Tlv.Encode.{encode_payload}
use csid.Csiq.Tlv.Decode.{decode_payload, or_decoded}
use csid.Csiq.Tlv.RoundTrip.{restored, relabel, recode, decode_payload-encode_payload}
use csid.Csiq.Raw.{le_at, build_record, parse_record_opts}
use csid.Csiq.Raw.Typed.{build_record-IsTyped}

relabel-decode_rnf : (rnf : ℕ) → Option.map relabel (decode_rnf rnf) ≡ decode_rnf rnf
unfolding decode_rnf
relabel-decode_rnf rnf = elim (Bool-cases (rnf == 0)) [
  | inl e ↦ rw e
  | inr e ↦ rw (e, Modulation.to_code-from_rnf_type)
]

decode_zero : (rnf : ℕ) → (rnf == 0) ≡ true → decode_bw_antsel rnf ≡ none
unfolding decode_bw_antsel
decode_zero rnf e = rw e

pub recode-decode_bw_antsel :
    (rnf : ℕ) → or_decoded (Option.map recode (decode_bw_antsel rnf)) rnf ≡ decode_bw_antsel rnf
unfolding decode_bw_antsel
recode-decode_bw_antsel rnf = elim (Bool-cases (rnf == 0)) [
  | inl e ↦ rw e (decode_zero rnf e)
  | inr e ↦ rw (e, Bandwidth.to_code-from_code)
]

-- The width with an `unknown` of a named code replaced by the name, and every other as it is.
abbrev pub settled : Width → Width
settled (Width.unknown v) =
    if v == 0
    then Width.noht
    else if v == 1
    then Width.ht20
    else if v == 2
    then Width.ht40_minus
    else if v == 3
    then Width.ht40_plus
    else if v == 4
    then Width.w80
    else if v == 5
    then Width.w160
    else if v == 6
    then Width.w320
    else Width.unknown v
settled width = width

abbrev pub with_settled_width : CsiRecord → CsiRecord
with_settled_width r = record r { width = settled r.width }

from_code-to_code-settled : (w : Width) → Width.from_code (Width.to_code w) ≡ settled w
unfolding Width.to_code Width.from_code
from_code-to_code-settled (Width.unknown v) = ground arith
from_code-to_code-settled Width.noht = refl
from_code-to_code-settled Width.ht20 = refl
from_code-to_code-settled Width.ht40_minus = refl
from_code-to_code-settled Width.ht40_plus = refl
from_code-to_code-settled Width.w80 = refl
from_code-to_code-settled Width.w160 = refl
from_code-to_code-settled Width.w320 = refl

restored-build_record :
    (hdr csi : List ℕ) (width : Width) (keep : Bool)
    → restored (build_record hdr csi width keep)
      ≡ with_settled_width (build_record hdr csi width keep)
unfolding build_record
restored-build_record hdr csi width keep = λ i. record (build_record hdr csi width keep) {
  phy = relabel-decode_rnf (le_at 4 hdr 92) i;
  bw_antsel = recode-decode_bw_antsel (le_at 4 hdr 92) i;
  width = from_code-to_code-settled width i;
}

width-build_record :
    (hdr csi : List ℕ) (width : Width) (keep : Bool)
    → (build_record hdr csi width keep).width ≡ width
unfolding build_record
width-build_record hdr csi width keep = refl

parse_record_opts-eq-ok :
    (hdr csi : List ℕ) (width : Width) (keep : Bool) (r : CsiRecord)
    → parse_record_opts hdr csi width keep ≡ ok r
    → (96 ≤ length hdr) × (build_record hdr csi width keep ≡ r)
unfolding parse_record_opts
parse_record_opts-eq-ok hdr csi width keep r e = ground arith

-- A record that the raw parser yields from bytes, at any configured width of 16 bits, is within its
-- Rust types and of that width, and encoding it as a CSIQ payload and decoding that again leaves it
-- unchanged, but for a width that is an `unknown` of a named code, which comes back as the name.
pub decode_payload-parse_record_opts :
    (hdr csi : List ℕ) (width : Width) (keep : Bool) (r : CsiRecord)
    → All IsByte hdr
    → All IsByte csi
    → IsU32 (length hdr)
    → IsU32 (length csi)
    → IsU16 (Width.to_code width)
    → parse_record_opts hdr csi width keep ≡ ok r
    → IsTyped r
      × (r.width ≡ width)
      × (decode_payload (encode_payload r) ≡ ok (with_settled_width r))
decode_payload-parse_record_opts hdr csi width keep r hb cb hl cl hw e =
    let (long, eb) = parse_record_opts-eq-ok hdr csi width keep r e in
    let typed = build_record-IsTyped hdr csi width keep hb cb long hl cl hw in
    subst
      (λ x.
        IsTyped x
        × (x.width ≡ width)
        × (decode_payload (encode_payload x) ≡ ok (with_settled_width x)))
      eb
      (
        typed,
        width-build_record hdr csi width keep,
        decode_payload-encode_payload (build_record hdr csi width keep) typed
            ∙ ap ok (restored-build_record hdr csi width keep),
      )
