-- ===== src/Csid/Source/Events.antt =====
-- The way of a CSI event from the driver's vendor event into recv of crates/csid/src/source.rs.
use csid.Prelude.{take-append_at, drop-append_right}
use csid.Csid.Source.{
  DriverConfig, nl80211_cmd_vendor, nl80211_attr_wiphy, nl80211_attr_vendor_id,
  nl80211_attr_vendor_subcmd, nl80211_attr_vendor_data, nla_align, Attr, ne_at, build_message,
  in_nest, extract_csi, event_of, or_next, walk_messages, RawRecv, datagram, message, or_listen,
  recv,
}
use csid.Csid.Source.Attrs.{
  IsAttr, push_attrs, iter_attrs-push_attrs, words-push_attrs, length-push_attrs, bound-push_attrs,
}
use csid.Prelude.{
  ℕ, zero, suc, ◌+◌, ◌*◌, ◌%◌, ◌^◌, ◌≤◌, ◌<◌, ◌≡◌, refl, ap, ◌∙◌, ◌≢◌, Bool, true, false, ◌&&◌,
  Option, none, some, List, [], ◌∷◌, ◌++◌, arith,
}
use csid.Prelude.{
  ◌==◌, if◌then◌else◌, le→ltb, le→leb, ==_refl, length, get_or, take, drop, All, length-append,
}
use csid.Prelude.Bytes.{le_bytes, of_le_bytes, of_le_bytes-le_bytes}

module _ (ty flags seq cmd : ℕ) (payload tail : List ℕ) where
  -- A message that is built, with what follows it.
  abbrev framed : List ℕ
  framed = build_message ty flags seq cmd payload ++ tail

  pub at_len : 20 + length payload < 2 ^ 32 → ne_at 4 0 framed ≡ 20 + length payload
  unfolding build_message
  at_len h = of_le_bytes-le_bytes 4 ((20 + length payload) % 2 ^ 32) (omega arith) ∙ omega arith

  pub at_type : ty < 2 ^ 16 → ne_at 2 4 framed ≡ ty
  unfolding build_message
  at_type h = of_le_bytes-le_bytes 2 ty h

  at_cmd : get_or framed 16 0 ≡ cmd
  unfolding build_message
  at_cmd = refl

  pub length-framed : length framed ≡ 20 + length payload + length tail
  unfolding build_message
  length-framed = omega (arith, length-append payload tail)

  pub at_payload : drop 20 (take (20 + length payload) framed) ≡ payload
  unfolding build_message
  at_payload = ap (drop 20) (
      take-append_at (build_message ty flags seq cmd payload) tail (20 + length payload)
        (omega arith))

  at_tail : (k : ℕ) → length payload ≡ k * 4 → drop (nla_align (20 + length payload)) framed ≡ tail
  unfolding build_message
  at_tail k h =
      drop-append_right (build_message ty flags seq cmd payload) tail
        (nla_align (20 + length payload)) 0 (omega (arith, h))

module _ (driver : DriverConfig) (family_id : ℕ) where
  -- What a message that is built is to the walk: an event if it is of the family and the command.
  abbrev event_in : ℕ → ℕ → List ℕ → Option (List ℕ × List ℕ)
  event_in ty cmd payload =
      if (ty == family_id) && (cmd == nl80211_cmd_vendor) then extract_csi driver payload else none

  event_of-build_message :
      (ty flags seq cmd : ℕ) (payload tail : List ℕ)
      → ty < 2 ^ 16
      → 20 + length payload < 2 ^ 32
      → event_of driver family_id
          (20 + length payload)
          (build_message ty flags seq cmd payload ++ tail)
        ≡ event_in ty cmd payload
  unfolding event_of
  event_of-build_message ty flags seq cmd payload tail ht hp =
      rw
        (
          at_type ty flags seq cmd payload tail ht,
          at_cmd ty flags seq cmd payload tail,
          at_payload ty flags seq cmd payload tail,
          le→leb 20 (20 + length payload) (omega arith),
        )
        (tests (ty == family_id) (cmd == nl80211_cmd_vendor))
    where
      tests :
          (a b : Bool)
          → (if a && true && b then extract_csi driver payload else none)
            ≡ (if a && b then extract_csi driver payload else none)
      tests true b = refl
      tests false b = refl

  -- The walk takes a message whose payload ends at a word, and goes on behind it.
  walk_messages-build_message :
      (fuel ty flags seq cmd k : ℕ) (payload tail : List ℕ)
      → ty < 2 ^ 16
      → 20 + length payload < 2 ^ 32
      → length payload ≡ k * 4
      → walk_messages (suc fuel) driver family_id (build_message ty flags seq cmd payload ++ tail)
        ≡ or_next (event_in ty cmd payload) (walk_messages fuel driver family_id tail)
  unfolding walk_messages
  walk_messages-build_message fuel ty flags seq cmd k payload tail ht hp hk =
      let total = length-framed ty flags seq cmd payload tail in
      let buf = framed ty flags seq cmd payload tail in
      rw (at_len ty flags seq cmd payload tail hp) (
        rw
          (
            le→ltb (length buf) 16 (omega (arith, total)),
            le→ltb (20 + length payload) 16 (omega arith),
            le→ltb (length buf) (20 + length payload) (omega (arith, total)),
            at_tail ty flags seq cmd payload tail k hk,
            event_of-build_message ty flags seq cmd payload tail ht hp,
          )
          refl)

-- The attributes of a vendor event, and its message.
abbrev pub nested_attrs : DriverConfig → List ℕ → List ℕ → List ℕ
nested_attrs driver hdr csi =
    push_attrs ((driver.attr_csi_hdr, hdr) ∷ (driver.attr_csi_data, csi) ∷ []) []

abbrev pub event_attrs : DriverConfig → ℕ → List ℕ → List ℕ → List Attr
event_attrs driver wiphy hdr csi =
    (nl80211_attr_wiphy, le_bytes 4 wiphy)
    ∷ (nl80211_attr_vendor_id, le_bytes 4 driver.vendor_oui)
    ∷ (nl80211_attr_vendor_subcmd, le_bytes 4 driver.csi_event_subcmd)
    ∷ (nl80211_attr_vendor_data, nested_attrs driver hdr csi)
    ∷ []

abbrev pub vendor_event : DriverConfig → ℕ → ℕ → ℕ → List ℕ → List ℕ → List ℕ
vendor_event driver family_id seq wiphy hdr csi =
    build_message family_id 0 seq nl80211_cmd_vendor
      (push_attrs (event_attrs driver wiphy hdr csi) [])

-- A driver's numbers within their types, and two different blobs that an attribute can nest.
abbrev pub IsDriver : DriverConfig → Type 0
IsDriver d =
    (d.vendor_oui < 2 ^ 32)
    × (d.csi_event_subcmd < 2 ^ 32)
    × (d.attr_csi_hdr < 2 ^ 14)
    × (d.attr_csi_data < 2 ^ 14)
    × (d.attr_csi_hdr ≢ d.attr_csi_data)

abbrev pub IsNested : DriverConfig → List ℕ → List ℕ → Type 0
IsNested driver hdr csi = 20 + length hdr + length csi < 2 ^ 16

module _ (driver : DriverConfig) (hdr csi : List ℕ) (hd : IsDriver driver)
    (hn : IsNested driver hdr csi) where
  nested_IsAttr : All IsAttr ((driver.attr_csi_hdr, hdr) ∷ (driver.attr_csi_data, csi) ∷ [])
  nested_IsAttr = ((hd.2, omega arith), ((hd.3, omega arith), tt))

  in_nest-nested_attrs : in_nest driver (some (nested_attrs driver hdr csi)) ≡ some (hdr, csi)
  in_nest-nested_attrs =
      let own : (driver.attr_csi_hdr == driver.attr_csi_hdr) ≡ true = ==_refl driver.attr_csi_hdr in
      let other : (driver.attr_csi_data == driver.attr_csi_hdr) ≡ false =
        apart driver.attr_csi_hdr driver.attr_csi_data (hd.4) in
      let second : (driver.attr_csi_data == driver.attr_csi_data) ≡ true =
        ==_refl driver.attr_csi_data in
      rw
        (iter_attrs-push_attrs ((driver.attr_csi_hdr, hdr) ∷ (driver.attr_csi_data, csi) ∷ [])
          nested_IsAttr)
        (rw (own) (rw other (rw second refl)))
    where
      apart : (a b : ℕ) → a ≢ b → (b == a) ≡ false
      apart a b ne = ground arith

  event_IsAttr : (wiphy : ℕ) → All IsAttr (event_attrs driver wiphy hdr csi)
  event_IsAttr wiphy =
      let short =
        length-push_attrs (driver.attr_csi_hdr, hdr) (driver.attr_csi_data, csi) (hd.2, omega arith)
          (hd.3, omega arith) in
      (
        (omega arith, omega arith),
        (
          (omega arith, omega arith),
          ((omega arith, omega arith), ((omega arith, omega arith), tt)),
        ),
      )

  extract_csi-event_attrs :
      (wiphy : ℕ)
      → extract_csi driver (push_attrs (event_attrs driver wiphy hdr csi) []) ≡ some (hdr, csi)
  unfolding extract_csi
  extract_csi-event_attrs wiphy =
      rw (iter_attrs-push_attrs (event_attrs driver wiphy hdr csi) (event_IsAttr wiphy)) (
        rw (word driver.vendor_oui (hd.0), word driver.csi_event_subcmd (hd.1))
          in_nest-nested_attrs)
    where
      word : (v : ℕ) → v < 2 ^ 32 → (of_le_bytes (le_bytes 4 v) == v) ≡ true
      word v h = ap (λ x. x == v) (of_le_bytes-le_bytes 4 v h) ∙ ==_refl v

-- A message of another family or of another command, ending at a word.
pub record Foreign : Type 0 where
  pub ty : ℕ
  pub flags : ℕ
  pub seq : ℕ
  pub cmd : ℕ
  pub payload : List ℕ
  pub words : ℕ

abbrev pub IsForeign : ℕ → Foreign → Type 0
IsForeign family_id m =
    (m.ty < 2 ^ 16)
    × (20 + length m.payload < 2 ^ 32)
    × (length m.payload ≡ m.words * 4)
    × (((m.ty == family_id) && (m.cmd == nl80211_cmd_vendor)) ≡ false)

abbrev pub foreign_bytes : List Foreign → List ℕ → List ℕ
foreign_bytes [] tail = tail
foreign_bytes (m ∷ ms) tail =
    build_message m.ty m.flags m.seq m.cmd m.payload ++ foreign_bytes ms tail

module _ (driver : DriverConfig) (family_id seq wiphy : ℕ) (hdr csi : List ℕ) where
  walk_messages-foreign_bytes :
      (ms : List Foreign) (tail : List ℕ) (fuel : ℕ)
      → IsDriver driver
      → IsNested driver hdr csi
      → family_id < 2 ^ 16
      → All (IsForeign family_id) ms
      → length ms < fuel
      → walk_messages fuel driver family_id
          (foreign_bytes ms (vendor_event driver family_id seq wiphy hdr csi ++ tail))
        ≡ some (hdr, csi)
  walk_messages-foreign_bytes ms tail zero hd hn hf h le = absurd (omega arith)
  walk_messages-foreign_bytes [] tail (suc fuel) hd hn hf h le =
      let attrs = event_attrs driver wiphy hdr csi in
      let fit = event_IsAttr driver hdr csi hd hn wiphy in
      let (k, e) = words-push_attrs attrs fit in
      walk_messages-build_message driver family_id fuel family_id 0 seq nl80211_cmd_vendor k
        (push_attrs attrs []) tail hf (omega (arith, bound-push_attrs attrs fit)) e
      ∙ rw (==_refl family_id, extract_csi-event_attrs driver hdr csi hd hn wiphy) refl
  walk_messages-foreign_bytes (m ∷ ms) tail (suc fuel) hd hn hf ((ht, hp, hk, other), h) le =
      walk_messages-build_message driver family_id fuel m.ty m.flags m.seq m.cmd m.words m.payload _
        ht hp hk
      ∙ rw other (walk_messages-foreign_bytes ms tail fuel hd hn hf h (omega arith))

length-foreign_bytes :
    (ms : List Foreign) (tail : List ℕ) → length ms + length tail ≤ length (foreign_bytes ms tail)
unfolding build_message
length-foreign_bytes [] tail = omega arith
length-foreign_bytes (m ∷ ms) tail =
    omega (arith, length-append m.payload (foreign_bytes ms tail), length-foreign_bytes ms tail)

enough_fuel :
    (driver : DriverConfig) (family_id seq wiphy : ℕ) (hdr csi tail : List ℕ) (ms : List Foreign)
    → length ms
      < length (foreign_bytes ms (vendor_event driver family_id seq wiphy hdr csi ++ tail))
enough_fuel driver family_id seq wiphy hdr csi tail ms =
    let payload = push_attrs (event_attrs driver wiphy hdr csi) [] in
    omega (
      arith,
      length-foreign_bytes ms (vendor_event driver family_id seq wiphy hdr csi ++ tail),
      length-framed family_id 0 seq nl80211_cmd_vendor payload tail,
    )

-- A vendor event as the driver sends it is received as its header and its matrix, with the time of
-- the read, behind any messages of other families or commands in the datagram; whatever follows it
-- in the datagram is not read again, further events included.
pub recv-vendor_event :
    (driver : DriverConfig) (family_id seq wiphy now : ℕ) (hdr csi tail : List ℕ)
    (ms : List Foreign) (rest : List RawRecv)
    → IsDriver driver
    → IsNested driver hdr csi
    → family_id < 2 ^ 16
    → All (IsForeign family_id) ms
    → recv driver family_id (
        datagram now (foreign_bytes ms (vendor_event driver family_id seq wiphy hdr csi ++ tail))
        ∷ rest)
      ≡ (message (record { hdr = hdr; csi = csi; unix_ts_ns = now }), rest)
unfolding recv
recv-vendor_event driver family_id seq wiphy now hdr csi tail ms rest hd hn hf h =
    let bytes = foreign_bytes ms (vendor_event driver family_id seq wiphy hdr csi ++ tail) in
    ap (λ found. or_listen now rest found (recv driver family_id rest))
      (walk_messages-foreign_bytes driver family_id seq wiphy hdr csi ms tail (length bytes) hd hn
        hf h (enough_fuel driver family_id seq wiphy hdr csi tail ms))
