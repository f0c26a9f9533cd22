-- ===== src/Csid/Census/Examples.antt =====
-- Frames on which the lemmas of this module are applied.
use csid.Prelude.Dict.{find, or_default}
use csid.Csid.Timesync.Address.{mac_string}
use csid.Csid.Inject.{InjectConfig, parse_mac, build_frame}
use csid.Csid.Inject.Delivery.{injected, recognise-build_frame}
use csid.Csid.Census.{mgmt, data_frame, Classified, classified, classify}
use csid.Csid.Census.Keys.{bucket_key}
use csid.Csid.Census.Tally.{bucket_of, new_minute, note_minute, fold_frames}
use csid.Csid.Census.Counts.{frames_in, note_minute-frames_in}
use csid.Csid.Census.Agreement.{classify-recognise}
use csid.Prelude.{ℕ, ◌%◌, ◌^◌, ◌≡◌, true, false, none, some, List, [], ◌∷◌, arith}
use csid.Prelude.{replicate}

abbrev ap_mac : List ℕ
ap_mac = 2 ∷ 0 ∷ 0 ∷ 0 ∷ 0 ∷ 1 ∷ []

abbrev phone_mac : List ℕ
phone_mac = 2 ∷ 0 ∷ 0 ∷ 0 ∷ 0 ∷ 2 ∷ []

abbrev beacon : Classified
beacon = record {
  kind = mgmt;
  subtype = 8;
  ta = some ap_mac;
  bssid = some ap_mac;
  sounding = none;
  protected = false;
}

abbrev uplink : Classified
uplink = record {
  kind = data_frame;
  subtype = 0;
  ta = some phone_mac;
  bssid = some ap_mac;
  sounding = none;
  protected = true;
}

abbrev heard : List Classified
heard = beacon ∷ uplink ∷ uplink ∷ beacon ∷ []

note_minute-frames_in_example :
    or_default bucket_key
      (0, 0)
      (find bucket_key (bucket_of uplink) (fold_frames note_minute heard (new_minute 60)).buckets)
    ≡ (
      (frames_in (bucket_of uplink) heard).0 % 2 ^ 64,
      (frames_in (bucket_of uplink) heard).1 % 2 ^ 64,
    )
note_minute-frames_in_example = note_minute-frames_in 60 heard (bucket_of uplink)

abbrev sender : InjectConfig
sender = record {
  frame_bytes = 64;
  src_mac = mac_string phone_mac;
  dst_mac = mac_string (replicate 6 0xff);
  bitrate_mbps = 6;
  monitor_tx_rate = 0x4100;
}

classify-recognise_example :
    (c : Classified) × (classify (build_frame sender 5 99) ≡ classified c)
    × (c.kind ≡ data_frame)
    × (c.ta ≡ some (parse_mac sender.src_mac))
    × (c.protected ≡ false)
classify-recognise_example =
    classify-recognise (build_frame sender 5 99) (injected (parse_mac sender.src_mac) 5 99)
      (recognise-build_frame sender 5 99 (omega arith) (omega arith))
