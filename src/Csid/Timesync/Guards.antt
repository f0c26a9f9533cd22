-- ===== src/Csid/Timesync/Guards.antt =====
-- What recognise in crates/csid/src/timesync/payload.rs lets through, and on which clock.
use csid.Csid.Timesync.Payload.{
  csid_stamp_len, csid_magic, csid_frame, app_frame, unix, mono, Stamp, stamped, rejected, no_stamp,
  bit, or_no_stamp, data_header_len, ipv4_udp_payload, mndp_header_len, mndp_stamp, udp_stamp,
  recognise_body, behind_header, recognise_mpdu, rt_len, recognise,
}
use mathlib.Core.Path.{subst}
use csid.Csid.Timesync.Address.{mac_string}
use csid.Prelude.{
  ℕ, ◌+◌, ◌/◌, ◌%◌, ◌≤◌, ◌<◌, ◌≡◌, refl, ◌≢◌, ◌⊎◌, inl, inr, Bool, true, false, ◌&&◌, Option, none,
  some, List, arith,
}
use csid.Prelude.{
  leb, if◌then◌else◌, length, get_or, take, drop, length-drop, eq_bytes, eq_bytes→eq,
}
use csid.Prelude.Bytes.{of_le_bytes}

stamped-injective : {s t : Stamp} → stamped s ≡ stamped t → s ≡ t
stamped-injective e = cc

some-injective : {s t : Stamp} → some s ≡ some t → s ≡ t
some-injective e = cc

-- A stamp that the app's header gives is on the monotonic clock, and not of a reply.
mndp_stamp-some :
    (d m : List ℕ) (s : Stamp)
    → mndp_stamp d m ≡ some s
    → (s.kind ≡ app_frame)
      × (s.tx_clock ≡ mono)
      × (s.tx_mac ≡ m)
      × (get_or d 5 0 ≢ 3)
      × (mndp_header_len ≤ length d)
unfolding mndp_stamp
mndp_stamp-some d m s h = ground arith

data_header_len-some :
    (fc0 fc1 n : ℕ) → data_header_len fc0 fc1 ≡ some n → (fc0 / 4 % 4 ≡ 2) × (24 ≤ n)
unfolding data_header_len
data_header_len-some fc0 fc1 n h = ground arith

-- The clock that a stamp is on, and what its payload was.
abbrev pub IsOnItsClock : List ℕ → Stamp → Type 0
IsOnItsClock body s =
    ((s.kind ≡ csid_frame) × (s.tx_clock ≡ unix) × (take 4 body ≡ csid_magic))
    ⊎ ((s.kind ≡ app_frame)
        × (s.tx_clock ≡ mono)
        × ((d : List ℕ) × (ipv4_udp_payload body ≡ some d) × (get_or d 5 0 ≢ 3)))

udp_stamp-stamped :
    (m body : List ℕ) (s : Stamp)
    → udp_stamp m body ≡ stamped s
    → (s.tx_mac ≡ m)
      × ((s.kind ≡ app_frame)
          × (s.tx_clock ≡ mono)
          × ((d : List ℕ) × (ipv4_udp_payload body ≡ some d) × (get_or d 5 0 ≢ 3)))
unfolding udp_stamp
udp_stamp-stamped m body s h = go (ipv4_udp_payload body) refl h
  where
    found : (o : Option Stamp) → or_no_stamp o ≡ stamped s → o ≡ some s
    found none e = cc
    found (some t) e = cc

    go :
        (o : Option (List ℕ))
        → ipv4_udp_payload body ≡ o
        → (elim o [ none ↦ rejected no_stamp | some udp ↦ or_no_stamp (mndp_stamp udp m) ])
          ≡ stamped s
        → (s.tx_mac ≡ m)
          × ((s.kind ≡ app_frame)
              × (s.tx_clock ≡ mono)
              × ((d : List ℕ) × (ipv4_udp_payload body ≡ some d) × (get_or d 5 0 ≢ 3)))
    go none e h = cc
    go (some d) e h =
        let (kind, clock, mac, ne, _) = mndp_stamp-some d m s (found (mndp_stamp d m) h) in
        (mac, (kind, clock, (d, e, ne)))

recognise_body-stamped :
    (m body : List ℕ) (s : Stamp)
    → recognise_body m body ≡ stamped s
    → (s.tx_mac ≡ m) × IsOnItsClock body s
unfolding recognise_body
recognise_body-stamped m body s h = go _ refl h
  where
    own : Stamp
    own = record {
      kind = csid_frame;
      tx_id = mac_string m;
      tx_mac = m;
      seq = of_le_bytes (take 8 (drop 4 body));
      tx_stamp_ns = of_le_bytes (take 8 (drop 12 body));
      tx_clock = unix;
      tx_wall_ns = none;
    }

    go :
        (b : Bool)
        → (leb csid_stamp_len (length body) && eq_bytes (take 4 body) csid_magic) ≡ b
        → (if b then stamped own else udp_stamp m body) ≡ stamped s
        → (s.tx_mac ≡ m) × IsOnItsClock body s
    go true e h =
        subst (λ (t : Stamp). (t.tx_mac ≡ m) × IsOnItsClock body t) (stamped-injective h)
          (refl, inl (refl, refl, eq_bytes→eq (take 4 body) csid_magic (ground arith)))
    go false e h = let (mac, app) = udp_stamp-stamped m body s h in (mac, inr app)

behind_header-stamped :
    (o : Option ℕ) (mpdu : List ℕ) (s : Stamp)
    → behind_header o mpdu ≡ stamped s
    → (n : ℕ) × (o ≡ some n)
      × (bit 6 (get_or mpdu 1 0) ≡ false)
      × (n < length mpdu)
      × (recognise_body (take 6 (drop 10 mpdu)) (drop n mpdu) ≡ stamped s)
unfolding behind_header
behind_header-stamped none mpdu s h = cc
behind_header-stamped (some n) mpdu s h = (n, refl, ground arith, ground arith, ground arith)

recognise_mpdu-stamped :
    (mpdu : List ℕ) (s : Stamp)
    → recognise_mpdu mpdu ≡ stamped s
    → behind_header (data_header_len (get_or mpdu 0 0) (get_or mpdu 1 0)) mpdu ≡ stamped s
unfolding recognise_mpdu
recognise_mpdu-stamped mpdu s h = ground arith

radiotap-stamped :
    (frame : List ℕ) (s : Stamp)
    → recognise frame ≡ stamped s
    → (8 ≤ rt_len frame)
      × (rt_len frame ≤ length frame)
      × (recognise_mpdu (drop (rt_len frame) frame) ≡ stamped s)
unfolding recognise
radiotap-stamped frame s h = (ground arith, ground arith, ground arith)

-- A stamp is read only from an unprotected data frame behind a whole radiotap header; it names
-- the transmitter address of the frame, and it is on the unix clock exactly when the payload is
-- the injector's. A stamp of the app is never that of a TIME_RESPONSE (type 3).
pub recognise-stamped :
    (frame : List ℕ) (s : Stamp)
    → recognise frame ≡ stamped s
    → (hdr_len : ℕ) × (8 ≤ rt_len frame)
      × (rt_len frame + hdr_len < length frame)
      × (24 ≤ hdr_len)
      × (get_or (drop (rt_len frame) frame) 0 0 / 4 % 4 ≡ 2)
      × (bit 6 (get_or (drop (rt_len frame) frame) 1 0) ≡ false)
      × (s.tx_mac ≡ take 6 (drop 10 (drop (rt_len frame) frame)))
      × IsOnItsClock (drop hdr_len (drop (rt_len frame) frame)) s
recognise-stamped frame s h =
    let mpdu = drop (rt_len frame) frame in
    let (long, fits, inner) = radiotap-stamped frame s h in
    let (n, header, open_frame, more, body) =
      behind_header-stamped (data_header_len (get_or mpdu 0 0) (get_or mpdu 1 0)) mpdu s
        (recognise_mpdu-stamped mpdu s inner) in
    let (data_type, deep) = data_header_len-some (get_or mpdu 0 0) (get_or mpdu 1 0) n header in
    let (mac, clock) = recognise_body-stamped (take 6 (drop 10 mpdu)) (drop n mpdu) s body in
    let room : rt_len frame + n < length frame = omega (arith, length-drop (rt_len frame) frame) in
    (n, long, room, deep, data_type, open_frame, mac, clock)
