-- ===== src/Csid/Timesync/Payload.antt =====
-- crates/csid/src/timesync/payload.rs: the transmit stamp inside a received frame. A text is the
-- list of its bytes.
use csid.Prelude.Text.{hex_byte}
use csid.Csid.Timesync.Address.{mac_string}
use csid.Prelude.{
  ℕ, ◌+◌, ◌-◌, ◌*◌, ◌/◌, ◌%◌, ◌^◌, min, Bool, not, ◌&&◌, ◌||◌, Option, none, some, List, [], ◌∷◌,
  ◌++◌,
}
use csid.Prelude.{ltb, leb, ◌==◌, if◌then◌else◌, length, get_or, take, drop, eq_bytes}
use csid.Prelude.Bytes.{of_le_bytes, of_be_bytes}

abbrev pub csid_magic : List ℕ
csid_magic = b'C' ∷ b'S' ∷ b'I' ∷ b'D' ∷ []

abbrev pub mndp_magic : List ℕ
mndp_magic = b'M' ∷ b'N' ∷ b'D' ∷ b'P' ∷ []

abbrev pub csid_stamp_len : ℕ
csid_stamp_len = 20

abbrev pub mndp_header_len : ℕ
mndp_header_len = 48

abbrev pub llc_snap : List ℕ
llc_snap = 0xaa ∷ 0xaa ∷ 3 ∷ 0 ∷ 0 ∷ 0 ∷ []

abbrev pub ethertype_ipv4 : ℕ
ethertype_ipv4 = 0x0800

abbrev pub ipproto_udp : ℕ
ipproto_udp = 17

pub data TxKind : Type 0 where
  csid_frame : TxKind
  app_frame : TxKind

pub data TxClock : Type 0 where
  unix : TxClock
  mono : TxClock

pub record Stamp : Type 0 where
  pub kind : TxKind
  pub tx_id : List ℕ
  pub tx_mac : List ℕ
  pub seq : ℕ
  pub tx_stamp_ns : ℕ
  pub tx_clock : TxClock
  pub tx_wall_ns : Option ℕ

pub data Reject : Type 0 where
  not_radiotap : Reject
  short : Reject
  not_data_frame : Reject
  protected : Reject
  no_stamp : Reject

-- `Result<Stamp, Reject>`.
pub data Recognised : Type 0 where
  stamped : Stamp → Recognised
  rejected : Reject → Recognised

-- `ok_or(Reject::NoStamp)`.
abbrev pub or_no_stamp : Option Stamp → Recognised
or_no_stamp none = rejected no_stamp
or_no_stamp (some s) = stamped s

abbrev pub hex_text : List ℕ → List ℕ
hex_text [] = []
hex_text (b ∷ bs) = hex_byte b ++ hex_text bs

unfoldable pub uuid_string : List ℕ → List ℕ
uuid_string b =
    hex_text (take 4 b)
    ++ (b'-'
        ∷ (hex_text (take 2 (drop 4 b))
            ++ (b'-'
                ∷ (hex_text (take 2 (drop 6 b))
                    ++ (b'-'
                        ∷ (hex_text (take 2 (drop 8 b))
                            ++ (b'-' ∷ hex_text (take 6 (drop 10 b)))))))))

-- Bit `2 ^ k` of a byte.
abbrev pub bit : ℕ → ℕ → Bool
bit k b = b / 2 ^ k % 2 == 1

unfoldable pub data_header_len : ℕ → ℕ → Option ℕ
data_header_len fc0 fc1 =
    let ftype = fc0 / 4 % 4 in
    let subtype = fc0 / 16 % 16 in
    if not (ftype == 2)
    then none
    else if bit 2 subtype
    then none
    else let len = if fc1 % 4 == 3 then 24 + 6 else 24 in
      some (if bit 3 subtype then (if bit 7 fc1 then len + 2 + 4 else len + 2) else len)

-- `x.get(start..)`.
abbrev pub get_from : ℕ → List ℕ → Option (List ℕ)
get_from start x = if ltb (length x) start then none else some (drop start x)

unfoldable pub udp_payload : List ℕ → Option (List ℕ)
udp_payload udp = if ltb (length udp) 8 then none else get_from 8 udp

unfoldable pub ip_payload : List ℕ → Option (List ℕ)
unfolding udp_payload
ip_payload ip =
    if ltb (length ip) 20 || not (get_or ip 0 0 / 16 == 4)
    then none
    else let ihl = get_or ip 0 0 % 16 * 4 in
      if ltb ihl 20 || ltb (length ip) ihl
      then none
      else if not (get_or ip 9 0 == ipproto_udp)
      then none
      else if not (of_be_bytes (get_or ip 6 0 ∷ get_or ip 7 0 ∷ []) % 2 ^ 13 == 0)
      then none
      else elim (get_from ihl ip) [ none ↦ none | some udp ↦ udp_payload udp ]

unfoldable pub ipv4_udp_payload : List ℕ → Option (List ℕ)
unfolding ip_payload
ipv4_udp_payload body =
    if ltb (length body) 8 || not (eq_bytes (take 6 body) llc_snap)
    then none
    else if not (of_be_bytes (get_or body 6 0 ∷ get_or body 7 0 ∷ []) == ethertype_ipv4)
    then none
    else elim (get_from 8 body) [ none ↦ none | some ip ↦ ip_payload ip ]

-- `u64::saturating_mul`.
abbrev pub saturating_mul : ℕ → ℕ → ℕ
saturating_mul a b = min (a * b) (2 ^ 64 - 1)

unfoldable pub mndp_stamp : List ℕ → List ℕ → Option Stamp
mndp_stamp dgram tx_mac =
    if ltb (length dgram) mndp_header_len || not (eq_bytes (take 4 dgram) mndp_magic)
    then none
    else if get_or dgram 5 0 == 3
    then none
    else let t_mono_ns = of_be_bytes (take 8 (drop 28 dgram)) in
      let t_wall_ms = of_be_bytes (take 8 (drop 36 dgram)) in
      some (record {
        kind = app_frame;
        tx_id = uuid_string (take 16 (drop 8 dgram));
        tx_mac = tx_mac;
        seq = of_be_bytes (take 4 (drop 24 dgram));
        tx_stamp_ns = t_mono_ns;
        tx_clock = mono;
        tx_wall_ns = if ltb 0 t_wall_ms then some (saturating_mul t_wall_ms 1000000) else none;
      })

unfoldable pub udp_stamp : List ℕ → List ℕ → Recognised
udp_stamp tx_mac body = elim (ipv4_udp_payload body) [
  | none ↦ rejected no_stamp
  | some udp ↦ or_no_stamp (mndp_stamp udp tx_mac)
]

unfoldable pub recognise_body : List ℕ → List ℕ → Recognised
unfolding udp_stamp
recognise_body tx_mac body =
    if leb csid_stamp_len (length body) && eq_bytes (take 4 body) csid_magic
    then stamped (record {
      kind = csid_frame;
      tx_id = mac_string tx_mac;
      tx_mac = tx_mac;
      seq = of_le_bytes (take 8 (drop 4 body));
      tx_stamp_ns = of_le_bytes (take 8 (drop 12 body));
      tx_clock = unix;
      tx_wall_ns = none;
    })
    else udp_stamp tx_mac body

unfoldable pub behind_header : Option ℕ → List ℕ → Recognised
unfolding recognise_body
behind_header none mpdu = rejected not_data_frame
behind_header (some hdr_len) mpdu =
    if bit 6 (get_or mpdu 1 0)
    then rejected protected
    else if leb (length mpdu) hdr_len
    then rejected short
    else recognise_body (take 6 (drop 10 mpdu)) (drop hdr_len mpdu)

unfoldable pub recognise_mpdu : List ℕ → Recognised
unfolding behind_header data_header_len
recognise_mpdu mpdu =
    if ltb (length mpdu) 24
    then rejected short
    else behind_header (data_header_len (get_or mpdu 0 0) (get_or mpdu 1 0)) mpdu

-- The length of the radiotap header, little-endian behind the version and a pad byte.
unfoldable pub rt_len : List ℕ → ℕ
rt_len frame = of_le_bytes (take 2 (drop 2 frame))

unfoldable pub recognise : List ℕ → Recognised
unfolding recognise_mpdu
recognise frame =
    if ltb (length frame) 8 || not (get_or frame 0 0 == 0)
    then rejected not_radiotap
    else if not (leb 8 (rt_len frame) && leb (rt_len frame) 1024)
        || ltb (length frame) (rt_len frame)
    then rejected not_radiotap
    else recognise_mpdu (drop (rt_len frame) frame)
