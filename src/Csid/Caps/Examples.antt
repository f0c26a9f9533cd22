-- ===== src/Csid/Caps/Examples.antt =====
-- A radio configuration and channels on which the lemmas of this module are applied.
use csid.Csid.Caps.{
  Band, ghz5, w80, channel_to_freq, freq_to_channel, done, RadioConfig, resolve_band, iw_numeric,
  center_freq, validate_radio,
}
use csid.Csid.Caps.Channels.{freq_to_channel_iff, center_freq-band_edge}
use csid.Csid.Caps.Validation.{IsLegal, validate_radio_iff}
use csid.Prelude.{ℕ, ◌+◌, ◌/◌, ◌≤◌, ◌≡◌, refl, ◌↔◌, none, some, [], ◌∷◌}

freq_to_channel_iff_example :
    (freq_to_channel 5180 ≡ some (ghz5, 36)) ↔ (channel_to_freq ghz5 36 ≡ some 5180)
freq_to_channel_iff_example = freq_to_channel_iff 5180 ghz5 36

center_freq-band_edge_example : (7105 + iw_numeric w80 / 2 ≤ 7125) ↔ (225 ≤ 221)
unfolding channel_to_freq center_freq
center_freq-band_edge_example = center_freq-band_edge 225 7075 7105 w80 refl refl

abbrev lab : RadioConfig
lab = record { interface = b'w' ∷ []; monitor = b'm' ∷ []; channel = 36; band = none; width = w80 }

validate_radio_iff_example :
    (validate_radio lab ≡ done tt)
    ↔ ((b : Band) × (f : ℕ) × (resolve_band lab ≡ done b) × IsLegal lab b f)
validate_radio_iff_example = validate_radio_iff lab
