-- ===== src/Csiq/Bandwidth.antt =====
-- crates/csiq/src/record.rs, enum Bandwidth: the received frame's channel bandwidth, by the
-- driver's own code.
use csid.Prelude.{ℕ, zero, suc, ◌*◌, ◌^◌, ◌<◌, ◌≡◌, refl, Option, none, some, arith}
use csid.Prelude.{ltb, ◌==◌, if◌then◌else◌}

-- `unknown` carries the code verbatim.
pub data Bandwidth : Type 0 where
  w20 w40 w80 w160 w320 : Bandwidth
  unknown : ℕ → Bandwidth

unfoldable pub to_code : Bandwidth → ℕ
to_code w20 = 0
to_code w40 = 1
to_code w80 = 2
to_code w160 = 3
to_code w320 = 4
to_code (unknown v) = v

unfoldable pub from_code : ℕ → Bandwidth
from_code v =
    if v == 0
    then w20
    else if v == 1
    then w40
    else if v == 2
    then w80
    else if v == 3
    then w160
    else if v == 4
    then w320
    else unknown v

unfoldable pub mhz : Bandwidth → Option ℕ
mhz w20 = some 20
mhz w40 = some 40
mhz w80 = some 80
mhz w160 = some 160
mhz w320 = some 320
mhz (unknown v) = none

-- Every code survives decoding and encoding again, known or not.
pub to_code-from_code : (v : ℕ) → to_code (from_code v) ≡ v
unfolding to_code from_code
to_code-from_code v = ground arith

-- No `unknown` value stands for a code that has a name.
abbrev pub IsCanonical : Bandwidth → Type 0
IsCanonical (unknown v) = 4 < v
IsCanonical _ = Unit {0}

pub from_code-to_code : (b : Bandwidth) → IsCanonical b → from_code (to_code b) ≡ b
unfolding to_code from_code
from_code-to_code (unknown v) h = ground arith
from_code-to_code w20 h = refl
from_code-to_code w40 h = refl
from_code-to_code w80 h = refl
from_code-to_code w160 h = refl
from_code-to_code w320 h = refl

pub from_code-IsCanonical : (v : ℕ) → IsCanonical (from_code v)
unfolding from_code
from_code-IsCanonical v = ground arith

-- A code below 5 names the bandwidth 20 * 2 ^ v, and no other code names any.
pub mhz-from_code : (v : ℕ) → mhz (from_code v) ≡ (if ltb v 5 then some (20 * 2 ^ v) else none)
unfolding mhz from_code
mhz-from_code zero = refl
mhz-from_code (suc zero) = refl
mhz-from_code (suc (suc zero)) = refl
mhz-from_code (suc (suc (suc zero))) = refl
mhz-from_code (suc (suc (suc (suc zero)))) = refl
mhz-from_code (suc (suc (suc (suc (suc v))))) = ground arith
