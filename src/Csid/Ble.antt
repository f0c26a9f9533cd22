-- ===== src/Csid/Ble.antt =====
-- crates/csid/src/ble.rs: what an advertisement tells of its sender's address. A text is the list
-- of its bytes.
pub mod Adverts
pub mod Hci
pub mod Walk
pub mod Lab
pub mod Reports
mod Examples
use csid.Prelude.Text.{hex_byte}
use csid.Prelude.{
  ℕ, zero, suc, ◌+◌, ◌-◌, ◌*◌, ◌/◌, ◌%◌, ◌^◌, ◌≤◌, ◌<◌, min, max, ◌≡◌, refl, sym, ap, ◌∙◌, ◌≢◌, ◌↔◌,
  ◌⊎◌, inl, inr, Bool, true, false, not, ◌&&◌, ◌||◌, Option, none, some, List, [], ◌∷◌, ◌++◌, map,
  append-nil, append_assoc, arith,
}
use csid.Prelude.{
  ltb, leb, ◌==◌, if◌then◌else◌, ltb→lt, lt→ltb, le→ltb, le→leb, lt→leb, leb→le, ==_iff, ==_refl,
  Bool-cases, Option-cases, length, get_elem?, get_or, range_map, length-range_map,
  get_elem?-range_map, get_elem?-append_right, get_elem?-append_left, take, drop, replicate, All,
  length-append, length-take, length-drop, length-replicate, take-append-drop, take-append,
  drop-append, All-append, eq_bytes, eq_bytes_refl, eq_bytes→eq,
}
use csid.Prelude.Bytes.{
  IsByte, le_bytes, of_le_bytes, be_bytes, of_be_bytes, length-le_bytes, length-be_bytes,
  le_bytes-IsByte, of_le_bytes-le_bytes, of_be_bytes-be_bytes, of_le_bytes-lt, le_bytes-of_le_bytes,
  get_or-IsByte,
}
use csid.Prelude.Int.{
  ℤ, pos, negsuc, pos_part, neg_part, sub_ℕ, IsSigned, to_pattern, of_pattern, to_pattern-lt,
  of_pattern-to_pattern, of_pattern-IsSigned,
}

pub data AddrKind : Type 0 where
  public : AddrKind
  random_static : AddrKind
  rpa_resolvable : AddrKind
  rpa_non_resolvable : AddrKind
  random_reserved : AddrKind
  public_identity : AddrKind
  random_identity : AddrKind
  unknown_kind : AddrKind

-- The two top bits of a random address.
unfoldable pub random_kind : ℕ → AddrKind
random_kind top =
    if top == 3
    then random_static
    else if top == 1
    then rpa_resolvable
    else if top == 0
    then rpa_non_resolvable
    else random_reserved

unfoldable pub addr_kind : ℕ → List ℕ → AddrKind
unfolding random_kind
addr_kind addr_type addr =
    if addr_type == 0
    then public
    else if addr_type == 2
    then public_identity
    else if addr_type == 3
    then random_identity
    else if addr_type == 1
    then random_kind (get_or addr 5 0 / 2 ^ 6)
    else unknown_kind

unfoldable pub is_stable : AddrKind → Bool
is_stable public = true
is_stable random_static = true
is_stable public_identity = true
is_stable random_identity = true
is_stable rpa_resolvable = false
is_stable rpa_non_resolvable = false
is_stable random_reserved = false
is_stable unknown_kind = false

pub data PduType : Type 0 where
  adv_ind : PduType
  adv_direct_ind : PduType
  adv_scan_ind : PduType
  adv_nonconn_ind : PduType
  scan_rsp : PduType
  unknown_pdu : PduType

unfoldable pub from_event_type : ℕ → PduType
from_event_type t =
    if t == 0
    then adv_ind
    else if t == 1
    then adv_direct_ind
    else if t == 2
    then adv_scan_ind
    else if t == 3
    then adv_nonconn_ind
    else if t == 4
    then scan_rsp
    else unknown_pdu

unfoldable pub oui : ℕ → List ℕ → Option (List ℕ)
oui addr_type addr =
    if addr_type == 0 || addr_type == 2
    then some (
        hex_byte (get_or addr 5 0)
        ++ (b':' ∷ (hex_byte (get_or addr 4 0) ++ (b':' ∷ hex_byte (get_or addr 3 0)))))
    else none

pub record RawAdv : Type 0 where
  pub event_type : ℕ
  pub addr_type : ℕ
  pub addr : List ℕ
  pub rssi : ℤ
  pub payload : List ℕ

-- Only an address with a vendor's prefix or a fixed identity counts as a stable one; a vendor's
-- prefix is never read from a random address.
pub oui-is_stable :
    (addr_type : ℕ) (addr : List ℕ)
    → oui addr_type addr ≢ none
    → is_stable (addr_kind addr_type addr) ≡ true
unfolding oui addr_kind is_stable
oui-is_stable t a h = ground arith
