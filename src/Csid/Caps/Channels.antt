-- ===== src/Csid/Caps/Channels.antt =====
-- Channels against frequencies, in crates/csid/src/caps.rs.
use csid.Csid.Caps.{
  Band, ghz24, ghz5, ghz6, WidthCfg, w80, w160, w320, in_ch5, g5_80, g5_160, channel_to_freq,
  freq_to_channel, done, group_center, center_channel, center_in_band, needs_center, iw_numeric,
  center_freq,
}
use csid.Prelude.{ℕ, ◌+◌, ◌/◌, ◌≤◌, ◌≡◌, ◌↔◌, inl, inr, true, some, arith}
use csid.Prelude.{Option-cases}

in_ch5-range : (c : ℕ) → in_ch5 c ≡ true → (36 ≤ c) × (c ≤ 177)
unfolding in_ch5
in_ch5-range c h = ground arith

freq-channel_24 : (f c : ℕ) → freq_to_channel f ≡ some (ghz24, c) → channel_to_freq ghz24 c ≡ some f
unfolding freq_to_channel channel_to_freq
freq-channel_24 f c h = ground (arith, in_ch5-range c)

channel-freq_24 : (f c : ℕ) → channel_to_freq ghz24 c ≡ some f → freq_to_channel f ≡ some (ghz24, c)
unfolding freq_to_channel channel_to_freq
channel-freq_24 f c h = ground (arith, in_ch5-range c)

freq-channel_5 : (f c : ℕ) → freq_to_channel f ≡ some (ghz5, c) → channel_to_freq ghz5 c ≡ some f
unfolding freq_to_channel channel_to_freq
freq-channel_5 f c h = ground (arith, in_ch5-range c)

channel-freq_5 : (f c : ℕ) → channel_to_freq ghz5 c ≡ some f → freq_to_channel f ≡ some (ghz5, c)
unfolding freq_to_channel channel_to_freq
channel-freq_5 f c h = ground (arith, in_ch5-range c)

freq-channel_6 : (f c : ℕ) → freq_to_channel f ≡ some (ghz6, c) → channel_to_freq ghz6 c ≡ some f
unfolding freq_to_channel channel_to_freq
freq-channel_6 f c h = ground (arith, in_ch5-range c)

channel-freq_6 : (f c : ℕ) → channel_to_freq ghz6 c ≡ some f → freq_to_channel f ≡ some (ghz6, c)
unfolding freq_to_channel channel_to_freq
channel-freq_6 f c h = ground (arith, in_ch5-range c)

-- A frequency reads as a channel of a band exactly when that channel has the frequency.
pub freq_to_channel_iff :
    (freq_mhz : ℕ) (band : Band) (channel : ℕ)
    → (freq_to_channel freq_mhz ≡ some (band, channel))
      ↔ (channel_to_freq band channel ≡ some freq_mhz)
freq_to_channel_iff f ghz24 c = (freq-channel_24 f c, channel-freq_24 f c)
freq_to_channel_iff f ghz5 c = (freq-channel_5 f c, channel-freq_5 f c)
freq_to_channel_iff f ghz6 c = (freq-channel_6 f c, channel-freq_6 f c)

-- Members of a group lie around its centre, at most `reach` channels off.
group_80-reach :
    (c m : ℕ) → group_center g5_80 c ≡ some m → (c ≤ m + 6) × (m ≤ c + 6) × (36 ≤ c) × (m ≤ 171)
unfolding group_center
group_80-reach c m h = ground arith

group_160-reach :
    (c m : ℕ) → group_center g5_160 c ≡ some m → (c ≤ m + 14) × (m ≤ c + 14) × (36 ≤ c) × (m ≤ 163)
unfolding group_center
group_160-reach c m h = ground arith

-- The width in MHz of a wide capture.
abbrev pub IsCentered : ℕ → ℕ → WidthCfg → Type 0
IsCentered f center w = (f + 10 ≤ center + iw_numeric w / 2) × (center + 10 ≤ f + iw_numeric w / 2)

-- A wide capture's centre is one that its channel of 20 MHz lies around, on 5 and 6 GHz.
pub center_freq-IsCentered :
    (band : Band) (channel f center : ℕ) (width : WidthCfg)
    → channel_to_freq band channel ≡ some f
    → center_freq band channel width ≡ done (some center)
    → IsCentered f center width
unfolding channel_to_freq center_freq needs_center center_channel center_in_band iw_numeric
center_freq-IsCentered ghz24 c f m w80 h g = cc
center_freq-IsCentered ghz24 c f m w h g = cc
center_freq-IsCentered ghz5 c f m w80 h g = elim (Option-cases (group_center g5_80 c)) [
  | inl e ↦ ground arith
  | inr (n, e) ↦ ground (arith, group_80-reach c n e)
]
center_freq-IsCentered ghz5 c f m w160 h g = elim (Option-cases (group_center g5_160 c)) [
  | inl e ↦ ground arith
  | inr (n, e) ↦ ground (arith, group_160-reach c n e)
]
center_freq-IsCentered ghz5 c f m w320 h g = cc
center_freq-IsCentered ghz5 c f m w h g = cc
center_freq-IsCentered ghz6 c f m w80 h g = ground arith
center_freq-IsCentered ghz6 c f m w160 h g = ground arith
center_freq-IsCentered ghz6 c f m w320 h g = cc
center_freq-IsCentered ghz6 c f m w h g = cc

-- On 6 GHz the block of 80 or 160 MHz ends within the band, at 7125 MHz, exactly for the channels
-- up to 221; the last three channels get a centre whose block reaches beyond it.
pub center_freq-band_edge :
    (channel f center : ℕ) (width : WidthCfg)
    → channel_to_freq ghz6 channel ≡ some f
    → center_freq ghz6 channel width ≡ done (some center)
    → (center + iw_numeric width / 2 ≤ 7125) ↔ (channel ≤ 221)
unfolding channel_to_freq center_freq needs_center center_channel center_in_band iw_numeric
center_freq-band_edge c f m w80 h g = ground arith
center_freq-band_edge c f m w160 h g = ground arith
center_freq-band_edge c f m w h g = cc
