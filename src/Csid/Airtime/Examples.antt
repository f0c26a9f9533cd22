-- ===== src/Csid/Airtime/Examples.antt =====
-- Radiotap headers at concrete bytes.
use csid.Csid.Airtime.{default_phy}
use csid.Csid.Airtime.Fields.{ht_field}
use csid.Csid.Airtime.Parse.{parse}
use csid.Csid.Airtime.Injected.{parse-build_frame}
use csid.Csid.Inject.{InjectConfig, build_frame}
use csid.Prelude.{◌≡◌, refl, true, none, some, [], ◌∷◌}
use csid.Prelude.Int.{negsuc}

-- Two presence words, with the signal of antenna 1 in the second.
two_words :
    parse (0 ∷ 0 ∷ 15 ∷ 0 ∷ 0x20 ∷ 0 ∷ 0 ∷ 0xa0 ∷ 0x20 ∷ 8 ∷ 0 ∷ 0 ∷ 0xc4 ∷ 0xbe ∷ 1 ∷ 8 ∷ 0 ∷ [])
    ≡ some (record default_phy {
      signal_dbm = some (negsuc 59);
      antenna_dbm = (none, some (negsuc 65));
      psdu_len = 2;
    })
unfolding parse
two_words = refl

forty_mhz : ht_field (5 ∷ 5 ∷ 7 ∷ []) ≡ record { mcs = 7; bw_mhz = 40; short_gi = true }
unfolding ht_field
forty_mhz = refl

abbrev paced : InjectConfig
paced = record {
  frame_bytes = 100;
  src_mac = b'0' ∷ b'2' ∷ [];
  dst_mac = [];
  bitrate_mbps = 6;
  monitor_tx_rate = 0;
}

parse-build_frame_example :
    parse (build_frame paced 7 1000)
    ≡ some (record default_phy { rate_500k = some 12; psdu_len = 100 })
parse-build_frame_example = parse-build_frame paced 7 1000
