-- ===== src/Csiq/Width.antt =====
-- crates/csiq/src/record.rs, enum Width: the monitor interface's width and its wire code.
use csid.Prelude.{ℕ, ◌<◌, ◌≡◌, refl, arith}
use csid.Prelude.{◌==◌, if◌then◌else◌}

-- `unknown` carries the code verbatim.
pub data Width : Type 0 where
  noht ht20 ht40_minus ht40_plus w80 w160 w320 : Width
  unknown : ℕ → Width

unfoldable pub to_code : Width → ℕ
to_code noht = 0
to_code ht20 = 1
to_code ht40_minus = 2
to_code ht40_plus = 3
to_code w80 = 4
to_code w160 = 5
to_code w320 = 6
to_code (unknown v) = v

unfoldable pub from_code : ℕ → Width
from_code v =
    if v == 0
    then noht
    else if v == 1
    then ht20
    else if v == 2
    then ht40_minus
    else if v == 3
    then ht40_plus
    else if v == 4
    then w80
    else if v == 5
    then w160
    else if v == 6
    then w320
    else unknown v

-- Every code survives decoding and encoding again, known or not.
pub to_code-from_code : (v : ℕ) → to_code (from_code v) ≡ v
unfolding to_code from_code
to_code-from_code v = ground arith

-- No `unknown` value stands for a code that has a name.
abbrev pub IsCanonical : Width → Type 0
IsCanonical (unknown v) = 6 < v
IsCanonical _ = Unit {0}

pub from_code-to_code : (w : Width) → IsCanonical w → from_code (to_code w) ≡ w
unfolding to_code from_code
from_code-to_code (unknown v) h = ground arith
from_code-to_code noht h = refl
from_code-to_code ht20 h = refl
from_code-to_code ht40_minus h = refl
from_code-to_code ht40_plus h = refl
from_code-to_code w80 h = refl
from_code-to_code w160 h = refl
from_code-to_code w320 h = refl

pub from_code-IsCanonical : (v : ℕ) → IsCanonical (from_code v)
unfolding from_code
from_code-IsCanonical v = ground arith
