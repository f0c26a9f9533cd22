-- ===== src/Csid/Source.antt =====
-- crates/csid/src/source.rs: the netlink messages that the capture sends and reads. The machine is
-- little-endian, as the nodes are; what the socket gives is an argument.
pub mod Attrs
pub mod Events
pub mod Replies
mod Examples
use csid.Csid.Inject.{resize}
use csid.Csid.Sinks.{RawCsiMessage}
use csid.Prelude.{
  ℕ, zero, suc, ◌+◌, ◌-◌, ◌*◌, ◌/◌, ◌%◌, ◌^◌, ◌≤◌, ◌<◌, min, max, ◌≡◌, refl, sym, ap, ◌∙◌, ◌≢◌, ◌↔◌,
  ◌⊎◌, inl, inr, Bool, true, false, not, ◌&&◌, ◌||◌, Option, none, some, List, [], ◌∷◌, ◌++◌, map,
  append-nil, append_assoc, arith,
}
use csid.Prelude.{
  ltb, leb, ◌==◌, if◌then◌else◌, ltb→lt, lt→ltb, le→ltb, le→leb, lt→leb, leb→le, ==_iff, ==_refl,
  Bool-cases, Option-cases, length, get_elem?, get_or, range_map, length-range_map,
  get_elem?-range_map, get_elem?-append_right, get_elem?-append_left, take, drop, replicate, All,
  length-append, length-take, length-drop, length-replicate, take-append-drop, take-append,
  drop-append, All-append, eq_bytes, eq_bytes_refl, eq_bytes→eq,
}
use csid.Prelude.Bytes.{
  IsByte, le_bytes, of_le_bytes, be_bytes, of_be_bytes, length-le_bytes, length-be_bytes,
  le_bytes-IsByte, of_le_bytes-le_bytes, of_be_bytes-be_bytes, of_le_bytes-lt, le_bytes-of_le_bytes,
  get_or-IsByte,
}
use csid.Prelude.Int.{
  ℤ, pos, negsuc, pos_part, neg_part, sub_ℕ, IsSigned, to_pattern, of_pattern, to_pattern-lt,
  of_pattern-to_pattern, of_pattern-IsSigned,
}

pub record DriverConfig : Type 0 where
  pub vendor_oui : ℕ
  pub csi_event_subcmd : ℕ
  pub attr_csi_hdr : ℕ
  pub attr_csi_data : ℕ

abbrev pub ctrl_attr_family_id : ℕ
ctrl_attr_family_id = 1

abbrev pub nlmsg_error : ℕ
nlmsg_error = 2

abbrev pub nlmsg_done : ℕ
nlmsg_done = 3

abbrev pub nl80211_cmd_vendor : ℕ
nl80211_cmd_vendor = 103

abbrev pub nl80211_attr_wiphy : ℕ
nl80211_attr_wiphy = 1

abbrev pub nl80211_attr_vendor_id : ℕ
nl80211_attr_vendor_id = 195

abbrev pub nl80211_attr_vendor_subcmd : ℕ
nl80211_attr_vendor_subcmd = 196

abbrev pub nl80211_attr_vendor_data : ℕ
nl80211_attr_vendor_data = 197

abbrev pub nlmsg_hdr_len : ℕ
nlmsg_hdr_len = 16

abbrev pub genl_hdr_len : ℕ
genl_hdr_len = 4

-- `(len + 3) & !3`.
abbrev pub nla_align : ℕ → ℕ
nla_align len = (len + 3) / 4 * 4

-- A type and a payload.
abbrev pub Attr : Type 0
Attr = ℕ × List ℕ

-- `u16::from_ne_bytes` and `u32::from_ne_bytes` at an offset, where the bytes are there.
abbrev pub ne_at : ℕ → ℕ → List ℕ → ℕ
ne_at n o buf = of_le_bytes (take n (drop o buf))

-- The closure of `iter_attrs`: the next attribute, and what is left.
unfoldable pub next_attr : List ℕ → Option (Attr × List ℕ)
next_attr buf =
    if ltb (length buf) 4
    then none
    else let len = ne_at 2 0 buf in
      let ty = ne_at 2 2 buf % 2 ^ 14 in
      if ltb len 4 || ltb (length buf) len
      then none
      else some ((ty, drop 4 (take len buf)), drop (min (nla_align len) (length buf)) buf)

abbrev pub followed_by : Option (Attr × List ℕ) → (List ℕ → List Attr) → List Attr
followed_by none rest = []
followed_by (some (a, buf)) rest = a ∷ rest buf

-- The attributes, at most `fuel` of them.
unfoldable pub attrs_from : ℕ → List ℕ → List Attr
unfolding next_attr
attrs_from zero buf = []
attrs_from (suc fuel) buf = followed_by (next_attr buf) (attrs_from fuel)

-- An attribute takes four bytes at least.
unfoldable pub iter_attrs : List ℕ → List Attr
unfolding attrs_from
iter_attrs buf = attrs_from (length buf) buf

unfoldable pub push_attr : List ℕ → ℕ → List ℕ → List ℕ
push_attr out ty payload =
    let filled =
      out ++ (le_bytes 2 ((4 + length payload) % 2 ^ 16) ++ (le_bytes 2 ty ++ payload)) in
    resize (nla_align (length filled)) filled

unfoldable pub push_u32 : List ℕ → ℕ → ℕ → List ℕ
unfolding push_attr
push_u32 out ty value = push_attr out ty (le_bytes 4 value)

unfoldable pub build_message : ℕ → ℕ → ℕ → ℕ → List ℕ → List ℕ
build_message ty flags seq cmd payload =
    le_bytes 4 ((nlmsg_hdr_len + genl_hdr_len + length payload) % 2 ^ 32)
    ++ (le_bytes 2 ty
        ++ (le_bytes 2 flags
            ++ (le_bytes 4 seq ++ (le_bytes 4 0 ++ (cmd ∷ 1 ∷ (le_bytes 2 0 ++ payload))))))

-- The request that registers the socket.
unfoldable pub registration : DriverConfig → ℕ → ℕ → List ℕ
unfolding push_u32 build_message
registration driver family_id wiphy =
    let p1 = push_u32 [] nl80211_attr_wiphy wiphy in
    let p2 = push_u32 p1 nl80211_attr_vendor_id driver.vendor_oui in
    let p3 = push_u32 p2 nl80211_attr_vendor_subcmd driver.csi_event_subcmd in
    build_message family_id 5 2 nl80211_cmd_vendor p3

-- The locals of `extract_csi` in its first loop.
pub record VendorAttrs : Type 0 where
  pub vendor_id : Option ℕ
  pub subcmd : Option ℕ
  pub nested : Option (List ℕ)

abbrev pub note_attr : Attr → VendorAttrs → VendorAttrs
note_attr (ty, val) v =
    if (ty == nl80211_attr_vendor_id) && leb 4 (length val)
    then record v { vendor_id = some (ne_at 4 0 val) }
    else if (ty == nl80211_attr_vendor_subcmd) && leb 4 (length val)
    then record v { subcmd = some (ne_at 4 0 val) }
    else if ty == nl80211_attr_vendor_data
    then record v { nested = some val }
    else v

abbrev pub vendor_attrs : List Attr → VendorAttrs → VendorAttrs
vendor_attrs [] v = v
vendor_attrs (a ∷ rest) v = vendor_attrs rest (note_attr a v)

-- The locals of its second loop: the header and the matrix.
abbrev pub Blobs : Type 0
Blobs = Option (List ℕ) × Option (List ℕ)

abbrev pub note_blob : DriverConfig → Attr → Blobs → Blobs
note_blob driver (ty, val) (hdr, csi) =
    if ty == driver.attr_csi_hdr
    then (some val, csi)
    else if ty == driver.attr_csi_data
    then (hdr, some val)
    else (hdr, csi)

abbrev pub blobs : DriverConfig → List Attr → Blobs → Blobs
blobs driver [] b = b
blobs driver (a ∷ rest) b = blobs driver rest (note_blob driver a b)

abbrev pub both_blobs : Blobs → Option (List ℕ × List ℕ)
both_blobs (some hdr, some csi) = some (hdr, csi)
both_blobs _ = none

-- `vendor_id? != ..`, `subcmd? != ..`, and `data?`.
abbrev pub is_some_of : ℕ → Option ℕ → Bool
is_some_of v none = false
is_some_of v (some w) = w == v

abbrev pub in_nest : DriverConfig → Option (List ℕ) → Option (List ℕ × List ℕ)
in_nest driver none = none
in_nest driver (some nested) = both_blobs (blobs driver (iter_attrs nested) (none, none))

unfoldable pub extract_csi : DriverConfig → List ℕ → Option (List ℕ × List ℕ)
unfolding iter_attrs
extract_csi driver genl_payload =
    let v =
      vendor_attrs (iter_attrs genl_payload)
        (record { vendor_id = none; subcmd = none; nested = none }) in
    if is_some_of driver.vendor_oui v.vendor_id && is_some_of driver.csi_event_subcmd v.subcmd
    then in_nest driver v.nested
    else none

-- What one message of a datagram gives, `len` bytes long.
unfoldable pub event_of : DriverConfig → ℕ → ℕ → List ℕ → Option (List ℕ × List ℕ)
unfolding extract_csi
event_of driver family_id len buf =
    if (ne_at 2 4 buf == family_id)
      && leb (nlmsg_hdr_len + genl_hdr_len) len
      && (get_or buf nlmsg_hdr_len 0 == nl80211_cmd_vendor)
    then extract_csi driver (drop (nlmsg_hdr_len + genl_hdr_len) (take len buf))
    else none

abbrev pub or_next : Option (List ℕ × List ℕ) → Option (List ℕ × List ℕ) → Option (List ℕ × List ℕ)
or_next (some e) next = some e
or_next none next = next

-- The walk over the messages of a datagram, from an offset; each takes sixteen bytes at least.
unfoldable pub walk_messages : ℕ → DriverConfig → ℕ → List ℕ → Option (List ℕ × List ℕ)
unfolding event_of
walk_messages zero driver family_id buf = none
walk_messages (suc fuel) driver family_id buf =
    let len = ne_at 4 0 buf in
    let later = walk_messages fuel driver family_id (drop (nla_align len) buf) in
    if ltb (length buf) nlmsg_hdr_len || ltb len nlmsg_hdr_len || ltb (length buf) len
    then none
    else or_next (event_of driver family_id len buf) later

-- The errors of the two readers of a reply; an OS error by its number's pattern.
pub data ReplyError : Type 0 where
  short_response : ℕ → ReplyError
  truncated_error : ReplyError
  ack_where_payload : ReplyError
  os_error : ℕ → ReplyError
  done_where_payload : ReplyError
  no_genl_header : ReplyError
  short_ack : ℕ → ReplyError

pub data Reply {ℓ} (A : Type ℓ) : Type ℓ where
  accepted : A → Reply A
  refused : ReplyError → Reply A

unfoldable pub netlink_error : List ℕ → ReplyError
netlink_error buf =
    if ltb (length buf) (nlmsg_hdr_len + 4)
    then truncated_error
    else let code = ne_at 4 nlmsg_hdr_len buf in
      if code == 0 then ack_where_payload else os_error code

unfoldable pub parse_single_message : List ℕ → Reply (List ℕ)
unfolding netlink_error
parse_single_message buf =
    if ltb (length buf) nlmsg_hdr_len
    then refused (short_response (length buf))
    else let ty = ne_at 2 4 buf in
      let end = min (ne_at 4 0 buf) (length buf) in
      if ty == nlmsg_error
      then refused (netlink_error buf)
      else if ty == nlmsg_done
      then refused done_where_payload
      else if ltb end (nlmsg_hdr_len + genl_hdr_len)
      then refused no_genl_header
      else accepted (drop (nlmsg_hdr_len + genl_hdr_len) (take end buf))

unfoldable pub expect_ack : List ℕ → Reply (Unit {0})
expect_ack buf =
    if ltb (length buf) (nlmsg_hdr_len + 4)
    then refused (short_ack (length buf))
    else if not (ne_at 2 4 buf == nlmsg_error)
    then accepted tt
    else let code = ne_at 4 nlmsg_hdr_len buf in
      if code == 0 then accepted tt else refused (os_error code)

-- The loop over the attributes of the family's reply.
abbrev pub family_id_in : List Attr → Option ℕ
family_id_in [] = none
family_id_in ((ty, val) ∷ rest) =
    let later = family_id_in rest in
    if (ty == ctrl_attr_family_id) && leb 2 (length val) then some (ne_at 2 0 val) else later

-- What `recv_raw` gives: a timeout, an error, a datagram and the time of day.
pub data RawRecv : Type 0 where
  timed_out : RawRecv
  failed : RawRecv
  datagram : ℕ → List ℕ → RawRecv

pub data Recvd : Type 0 where
  nothing : Recvd
  failure : Recvd
  message : RawCsiMessage → Recvd

abbrev pub or_listen :
    ℕ → List RawRecv → Option (List ℕ × List ℕ) → Recvd × List RawRecv → Recvd × List RawRecv
or_listen now rest none later = later
or_listen now rest (some (hdr, csi)) later =
    (message (record { hdr = hdr; csi = csi; unix_ts_ns = now }), rest)

-- `recv`, on what the socket gives from now on, and what is left of it.
unfoldable pub recv : DriverConfig → ℕ → List RawRecv → Recvd × List RawRecv
unfolding walk_messages
recv driver family_id [] = (nothing, [])
recv driver family_id (timed_out ∷ rest) = (nothing, rest)
recv driver family_id (failed ∷ rest) = (failure, rest)
recv driver family_id (datagram now bytes ∷ rest) =
    or_listen now rest (walk_messages (length bytes) driver family_id bytes)
      (recv driver family_id rest)
