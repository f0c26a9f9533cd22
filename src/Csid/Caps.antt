-- ===== src/Csid/Caps.antt =====
-- crates/csid/src/caps.rs: bands, channels and widths, and what a radio configuration may ask for.
-- Of RadioConfig (crates/csid/src/config.rs) the model has the fields that the validation reads.
pub mod Channels
pub mod Validation
mod Examples
use csid.Csiq.Width
use csid.Csiq.Width.{Width}
use csid.Prelude.{
  ℕ, zero, suc, ◌+◌, ◌-◌, ◌*◌, ◌/◌, ◌%◌, ◌^◌, ◌≤◌, ◌<◌, min, max, ◌≡◌, refl, sym, ap, ◌∙◌, ◌≢◌, ◌↔◌,
  ◌⊎◌, inl, inr, Bool, true, false, not, ◌&&◌, ◌||◌, Option, none, some, List, [], ◌∷◌, ◌++◌, map,
  append-nil, append_assoc, arith,
}
use csid.Prelude.{
  ltb, leb, ◌==◌, if◌then◌else◌, ltb→lt, lt→ltb, le→ltb, le→leb, lt→leb, leb→le, ==_iff, ==_refl,
  Bool-cases, Option-cases, length, get_elem?, get_or, range_map, length-range_map,
  get_elem?-range_map, get_elem?-append_right, get_elem?-append_left, take, drop, replicate, All,
  length-append, length-take, length-drop, length-replicate, take-append-drop, take-append,
  drop-append, All-append, eq_bytes, eq_bytes_refl, eq_bytes→eq,
}
use csid.Prelude.Bytes.{
  IsByte, le_bytes, of_le_bytes, be_bytes, of_be_bytes, length-le_bytes, length-be_bytes,
  le_bytes-IsByte, of_le_bytes-le_bytes, of_be_bytes-be_bytes, of_le_bytes-lt, le_bytes-of_le_bytes,
  get_or-IsByte,
}
use csid.Prelude.Int.{
  ℤ, pos, negsuc, pos_part, neg_part, sub_ℕ, IsSigned, to_pattern, of_pattern, to_pattern-lt,
  of_pattern-to_pattern, of_pattern-IsSigned,
}

pub data Band : Type 0 where
  ghz24 : Band
  ghz5 : Band
  ghz6 : Band

pub data WidthCfg : Type 0 where
  noht : WidthCfg
  ht20 : WidthCfg
  ht40_minus : WidthCfg
  ht40_plus : WidthCfg
  w80 : WidthCfg
  w160 : WidthCfg
  w320 : WidthCfg

unfoldable pub to_csiq : WidthCfg → Width
to_csiq noht = Width.noht
to_csiq ht20 = Width.ht20
to_csiq ht40_minus = Width.ht40_minus
to_csiq ht40_plus = Width.ht40_plus
to_csiq w80 = Width.w80
to_csiq w160 = Width.w160
to_csiq w320 = Width.w320

unfoldable pub needs_center : WidthCfg → Bool
needs_center w80 = true
needs_center w160 = true
needs_center w320 = true
needs_center noht = false
needs_center ht20 = false
needs_center ht40_minus = false
needs_center ht40_plus = false

-- The number that the text of `iw_numeric` shows.
unfoldable pub iw_numeric : WidthCfg → ℕ
iw_numeric noht = 20
iw_numeric ht20 = 20
iw_numeric ht40_minus = 40
iw_numeric ht40_plus = 40
iw_numeric w80 = 80
iw_numeric w160 = 160
iw_numeric w320 = 320

abbrev pub contains : List ℕ → ℕ → Bool
contains [] c = false
contains (x ∷ xs) c = if x == c then true else contains xs c

abbrev pub ch5 : List ℕ
ch5 =
    36 ∷ 40 ∷ 44 ∷ 48 ∷ 52 ∷ 56 ∷ 60 ∷ 64 ∷ 100 ∷ 104 ∷ 108 ∷ 112 ∷ 116 ∷ 120 ∷ 124 ∷ 128 ∷ 132
    ∷ 136 ∷ 140 ∷ 144 ∷ 149 ∷ 153 ∷ 157 ∷ 161 ∷ 165 ∷ 169 ∷ 173 ∷ 177 ∷ []

-- `CH5.contains(&channel)`.
unfoldable pub in_ch5 : ℕ → Bool
in_ch5 channel = contains ch5 channel

abbrev pub g5_80 : List (List ℕ × ℕ)
g5_80 =
    (36 ∷ 40 ∷ 44 ∷ 48 ∷ [], 42)
    ∷ (52 ∷ 56 ∷ 60 ∷ 64 ∷ [], 58)
    ∷ (100 ∷ 104 ∷ 108 ∷ 112 ∷ [], 106)
    ∷ (116 ∷ 120 ∷ 124 ∷ 128 ∷ [], 122)
    ∷ (132 ∷ 136 ∷ 140 ∷ 144 ∷ [], 138)
    ∷ (149 ∷ 153 ∷ 157 ∷ 161 ∷ [], 155)
    ∷ (165 ∷ 169 ∷ 173 ∷ 177 ∷ [], 171)
    ∷ []

abbrev pub g5_160 : List (List ℕ × ℕ)
g5_160 =
    (36 ∷ 40 ∷ 44 ∷ 48 ∷ 52 ∷ 56 ∷ 60 ∷ 64 ∷ [], 50)
    ∷ (100 ∷ 104 ∷ 108 ∷ 112 ∷ 116 ∷ 120 ∷ 124 ∷ 128 ∷ [], 114)
    ∷ (149 ∷ 153 ∷ 157 ∷ 161 ∷ 165 ∷ 169 ∷ 173 ∷ 177 ∷ [], 163)
    ∷ []

unfoldable pub infer_band : ℕ → Option Band
infer_band channel =
    if leb 1 channel && leb channel 14
    then some ghz24
    else if in_ch5 channel
    then some ghz5
    else none

unfoldable pub channel_to_freq : Band → ℕ → Option ℕ
channel_to_freq ghz24 channel =
    if channel == 14
    then some 2484
    else if leb 1 channel && leb channel 13
    then some (2407 + 5 * channel)
    else none
channel_to_freq ghz5 channel = if in_ch5 channel then some (5000 + 5 * channel) else none
channel_to_freq ghz6 channel =
    if (leb 1 channel && leb channel 233) && (channel - 1) % 4 == 0
    then some (5950 + 5 * channel)
    else none

unfoldable pub freq_to_channel : ℕ → Option (Band × ℕ)
freq_to_channel freq_mhz =
    if freq_mhz == 2484
    then some (ghz24, 14)
    else if (leb 2412 freq_mhz && leb freq_mhz 2472) && (freq_mhz - 2407) % 5 == 0
    then some (ghz24, (freq_mhz - 2407) / 5)
    else if (leb 5180 freq_mhz && leb freq_mhz 5885) && (freq_mhz - 5000) % 5 == 0
    then (if in_ch5 ((freq_mhz - 5000) / 5) then some (ghz5, (freq_mhz - 5000) / 5) else none)
    else if (leb 5955 freq_mhz && leb freq_mhz 7115) && (freq_mhz - 5950) % 20 == 5
    then some (ghz6, (freq_mhz - 5950) / 5)
    else none

unfoldable pub from_observed : ℕ → ℕ → Option ℕ → Option WidthCfg
from_observed width_mhz control_mhz center_mhz =
    if width_mhz == 20
    then some ht20
    else if width_mhz == 40
    then elim center_mhz [
      | none ↦ none
      | some c ↦ if ltb c control_mhz then some ht40_minus else some ht40_plus
    ]
    else if width_mhz == 80
    then some w80
    else if width_mhz == 160
    then some w160
    else if width_mhz == 320
    then some w320
    else none

-- The messages of `bail!` and `anyhow!`.
pub data Refusal : Type 0 where
  cannot_infer : ℕ → Refusal
  not_on_band : ℕ → Band → Refusal
  not_on_24 : WidthCfg → Refusal
  beyond_hardware : Refusal
  no_group : ℕ → WidthCfg → Refusal
  no_wide_center : Refusal
  no_interface : Refusal
  no_monitor : Refusal

-- `anyhow::Result<A>`.
pub data Outcome {ℓ} (A : Type ℓ) : Type ℓ where
  done : A → Outcome A
  refused : Refusal → Outcome A

infixl 5 ◌>>=◌ ◌>>◌
abbrev pub ◌>>=◌ {ℓ κ} : {A : Type ℓ} {B : Type κ} → Outcome A → (A → Outcome B) → Outcome B
done a >>= f = f a
refused e >>= f = refused e

abbrev pub ◌>>◌ {ℓ κ} : {A : Type ℓ} {B : Type κ} → Outcome A → Outcome B → Outcome B
m >> k = m >>= λ _. k

abbrev pub or_refuse {ℓ} : {A : Type ℓ} → Option A → Refusal → Outcome A
or_refuse none e = refused e
or_refuse (some a) e = done a

unfoldable pub group_center : List (List ℕ × ℕ) → ℕ → Option ℕ
group_center [] channel = none
group_center ((members, c) ∷ groups) channel =
    let later = group_center groups channel in if contains members channel then some c else later

-- `channel - 1` on u32.
abbrev pub pred_u32 : ℕ → ℕ
pred_u32 channel = (channel + (2 ^ 32 - 1)) % 2 ^ 32

-- The `match (band, width)`, for the widths that need a centre.
unfoldable pub center_channel : Band → ℕ → WidthCfg → Outcome (Option ℕ)
center_channel ghz24 channel width = refused (not_on_24 width)
center_channel ghz5 channel w80 = done (group_center g5_80 channel)
center_channel ghz5 channel w160 = done (group_center g5_160 channel)
center_channel ghz5 channel w320 = refused beyond_hardware
center_channel ghz5 channel noht = done none
center_channel ghz5 channel ht20 = done none
center_channel ghz5 channel ht40_minus = done none
center_channel ghz5 channel ht40_plus = done none
center_channel ghz6 channel w80 = done (some ((pred_u32 channel / 16 * 16 + 7) % 2 ^ 32))
center_channel ghz6 channel w160 = done (some ((pred_u32 channel / 32 * 32 + 15) % 2 ^ 32))
center_channel ghz6 channel w320 = refused beyond_hardware
center_channel ghz6 channel noht = done none
center_channel ghz6 channel ht20 = done none
center_channel ghz6 channel ht40_minus = done none
center_channel ghz6 channel ht40_plus = done none

unfoldable pub center_in_band : Band → ℕ → Outcome ℕ
center_in_band ghz5 center_ch = done ((5000 + 5 * center_ch) % 2 ^ 32)
center_in_band ghz6 center_ch = done ((5950 + 5 * center_ch) % 2 ^ 32)
center_in_band ghz24 center_ch = refused no_wide_center

unfoldable pub center_freq : Band → ℕ → WidthCfg → Outcome (Option ℕ)
unfolding needs_center center_channel center_in_band
center_freq band channel width = if not (needs_center width) then done none else (do
  found ← center_channel band channel width
  center_ch ← or_refuse found (no_group channel width)
  freq ← center_in_band band center_ch
  done (some freq))

pub record RadioConfig : Type 0 where
  pub interface : List ℕ
  pub monitor : List ℕ
  pub channel : ℕ
  pub band : Option Band
  pub width : WidthCfg

unfoldable pub resolve_band : RadioConfig → Outcome Band
unfolding infer_band
resolve_band radio = elim radio.band [
  | some b ↦ done b
  | none ↦ or_refuse (infer_band radio.channel) (cannot_infer radio.channel)
]

-- The legality of a width on a band.
unfoldable pub width_allowed : Band → WidthCfg → Outcome (Unit {0})
width_allowed ghz24 noht = done tt
width_allowed ghz24 ht20 = done tt
width_allowed ghz24 ht40_minus = done tt
width_allowed ghz24 ht40_plus = done tt
width_allowed ghz24 width = refused (not_on_24 width)
width_allowed ghz5 w320 = refused beyond_hardware
width_allowed ghz6 w320 = refused beyond_hardware
width_allowed ghz5 width = done tt
width_allowed ghz6 width = done tt

abbrev pub not_empty : List ℕ → Refusal → Outcome (Unit {0})
not_empty [] e = refused e
not_empty (c ∷ cs) e = done tt

unfoldable pub validate_radio : RadioConfig → Outcome (Unit {0})
unfolding resolve_band channel_to_freq width_allowed center_freq
validate_radio radio = do
  band ← resolve_band radio
  or_refuse (channel_to_freq band radio.channel) (not_on_band radio.channel band)
  width_allowed band radio.width
  center_freq band radio.channel radio.width
  not_empty radio.interface no_interface
  not_empty radio.monitor no_monitor
