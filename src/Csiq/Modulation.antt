-- ===== src/Csiq/Modulation.antt =====
-- crates/csiq/src/record.rs, enum Modulation: the PHY family, by the modulation-type code of
-- `rate_n_flags`; `to_code` is the match that tlv.rs writes out in `encode_payload`.
use csid.Prelude.{ℕ, ◌<◌, ◌≡◌, refl, arith}
use csid.Prelude.{◌==◌, if◌then◌else◌}

-- `unknown` carries the code verbatim.
pub data Modulation : Type 0 where
  cck legacy_ofdm ht vht he eht : Modulation
  unknown : ℕ → Modulation

unfoldable pub to_code : Modulation → ℕ
to_code cck = 0
to_code legacy_ofdm = 1
to_code ht = 2
to_code vht = 3
to_code he = 4
to_code eht = 5
to_code (unknown v) = v

unfoldable pub from_rnf_type : ℕ → Modulation
from_rnf_type t =
    if t == 0
    then cck
    else if t == 1
    then legacy_ofdm
    else if t == 2
    then ht
    else if t == 3
    then vht
    else if t == 4
    then he
    else if t == 5
    then eht
    else unknown t

-- Every code survives decoding and encoding again, known or not.
pub to_code-from_rnf_type : (t : ℕ) → to_code (from_rnf_type t) ≡ t
unfolding to_code from_rnf_type
to_code-from_rnf_type t = ground arith

-- No `unknown` value stands for a code that has a name.
abbrev pub IsCanonical : Modulation → Type 0
IsCanonical (unknown t) = 5 < t
IsCanonical _ = Unit {0}

pub from_rnf_type-to_code : (m : Modulation) → IsCanonical m → from_rnf_type (to_code m) ≡ m
unfolding to_code from_rnf_type
from_rnf_type-to_code (unknown t) h = ground arith
from_rnf_type-to_code cck h = refl
from_rnf_type-to_code legacy_ofdm h = refl
from_rnf_type-to_code ht h = refl
from_rnf_type-to_code vht h = refl
from_rnf_type-to_code he h = refl
from_rnf_type-to_code eht h = refl

pub from_rnf_type-IsCanonical : (t : ℕ) → IsCanonical (from_rnf_type t)
unfolding from_rnf_type
from_rnf_type-IsCanonical t = ground arith
