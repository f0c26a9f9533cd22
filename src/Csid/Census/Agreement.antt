-- ===== src/Csid/Census/Agreement.antt =====
-- The census of crates/csid/src/census.rs beside the recogniser of
-- crates/csid/src/timesync/payload.rs, on the frames that both see.
use csid.Csid.Timesync.Payload.{bit, Stamp, stamped, recognise}
use csid.Csid.Timesync.Payload
use csid.Csid.Timesync.Guards.{recognise-stamped}
use csid.Csid.Census.{
  data_frame, Classified, classified, mac_at, data_bssid, data_class, classify_mpdu, rt_len,
  classify,
}
use csid.Prelude.{
  ℕ, ◌/◌, ◌%◌, ◌≤◌, ◌≡◌, refl, sym, ap, false, not, ◌&&◌, ◌||◌, none, some, List, ◌∷◌, arith,
}
use csid.Prelude.{ltb, leb, ◌==◌, le→ltb, length, get_or, take, drop, length-drop}

rt_len_same : (frame : List ℕ) → 8 ≤ length frame → rt_len frame ≡ Payload.rt_len frame
unfolding rt_len Payload.rt_len
rt_len_same (a ∷ b ∷ c ∷ d ∷ frame) h = refl
rt_len_same frame h = absurd (omega arith)

-- The guards on the radiotap header, which both functions have.
recognise-guards :
    (frame : List ℕ) (s : Stamp)
    → recognise frame ≡ stamped s
    → (8 ≤ length frame)
      × ((ltb (length frame) 8 || not (get_or frame 0 0 == 0)) ≡ false)
      × ((not (leb 8 (Payload.rt_len frame) && leb (Payload.rt_len frame) 1024)
            || ltb (length frame) (Payload.rt_len frame))
          ≡ false)
unfolding recognise
recognise-guards frame s h = (ground arith, ground arith, ground arith)

classify_mpdu-data :
    (mpdu : List ℕ)
    → 24 ≤ length mpdu
    → get_or mpdu 0 0 / 4 % 4 ≡ 2
    → bit 6 (get_or mpdu 1 0) ≡ false
    → classify_mpdu mpdu
      ≡ classified (record {
        kind = data_frame;
        subtype = get_or mpdu 0 0 / 16 % 16;
        ta = some (take 6 (drop 10 mpdu));
        bssid = data_bssid mpdu (get_or mpdu 1 0 % 4);
        sounding = none;
        protected = false;
      })
unfolding classify_mpdu data_class
classify_mpdu-data mpdu long ty open_frame =
    let ten : ltb (length mpdu) 10 ≡ false = le→ltb (length mpdu) 10 (omega arith) in
    let enough : ltb (length mpdu) 24 ≡ false = le→ltb (length mpdu) 24 long in
    let address : ltb (length mpdu) 16 ≡ false = le→ltb (length mpdu) 16 (omega arith) in
    rw (ten, ty) (rw (data_class, enough, mac_at, address, open_frame) refl)

-- A frame that a stamp is read from counts as an unprotected data frame of the stamp's address.
pub classify-recognise :
    (frame : List ℕ) (s : Stamp)
    → recognise frame ≡ stamped s
    → (c : Classified) × (classify frame ≡ classified c)
      × (c.kind ≡ data_frame)
      × (c.ta ≡ some s.tx_mac)
      × (c.protected ≡ false)
unfolding classify
classify-recognise frame s h =
    let (long, start, size) = recognise-guards frame s h in
    let (n, _, room, deep, ty, open_frame, mac, _) = recognise-stamped frame s h in
    let mpdu = drop (Payload.rt_len frame) frame in
    let enough : 24 ≤ length mpdu = omega (arith, length-drop (Payload.rt_len frame) frame) in
    let found : Classified = record {
      kind = data_frame;
      subtype = get_or mpdu 0 0 / 16 % 16;
      ta = some (take 6 (drop 10 mpdu));
      bssid = data_bssid mpdu (get_or mpdu 1 0 % 4);
      sounding = none;
      protected = false;
    } in
    (
      found,
      rw (start, rt_len_same frame long, size) (classify_mpdu-data mpdu enough ty open_frame),
      refl,
      ap some (sym mac),
      refl,
    )
