-- ===== src/Csid/Census/Keys.antt =====
-- The keys of the maps in crates/csid/src/census.rs, with the equality that their derives give.
use csid.Prelude.Dict.{Key}
use csid.Csid.Census.{Kind, mgmt, ctrl, data_frame, ext, Sounding, vht_bfi, he_bfi, ndpa}
use csid.Prelude.{
  ℕ, ◌≡◌, refl, sym, ap, ◌∙◌, ◌↔◌, Bool, true, false, ◌&&◌, Option, none, some, List, arith,
}
use csid.Prelude.{◌==◌, eq_bytes, eq_bytes_refl, eq_bytes→eq}

pub record BucketKey : Type 0 where
  pub ta : Option (List ℕ)
  pub bssid : Option (List ℕ)
  pub kind : Kind
  pub subtype : ℕ
  pub sounding : Option Sounding

pub same_mac_iff : (a b : List ℕ) → (eq_bytes a b ≡ true) ↔ (a ≡ b)
same_mac_iff a b = (eq_bytes→eq a b, λ e. ap (eq_bytes a) (sym e) ∙ eq_bytes_refl a)

abbrev pub mac_key : Key (List ℕ)
mac_key = record { same = eq_bytes; same_iff = same_mac_iff }

abbrev pub same_optional : Option (List ℕ) → Option (List ℕ) → Bool
same_optional none none = true
same_optional none (some b) = false
same_optional (some a) none = false
same_optional (some a) (some b) = eq_bytes a b

same_optional_iff : (a b : Option (List ℕ)) → (same_optional a b ≡ true) ↔ (a ≡ b)
same_optional_iff none none = (λ e. refl, λ e. refl)
same_optional_iff none (some b) = (λ e. cc, λ e. cc)
same_optional_iff (some a) none = (λ e. cc, λ e. cc)
same_optional_iff (some a) (some b) =
    (λ e. ap some (eq_bytes→eq a b e), λ e. (same_mac_iff a b).1 (cc))

-- The derived order of the constructors, to compare them by.
abbrev pub kind_index : Kind → ℕ
kind_index mgmt = 0
kind_index ctrl = 1
kind_index data_frame = 2
kind_index ext = 3

abbrev pub sounding_index : Option Sounding → ℕ
sounding_index none = 0
sounding_index (some vht_bfi) = 1
sounding_index (some he_bfi) = 2
sounding_index (some ndpa) = 3

kind_index_iff : (a b : Kind) → ((kind_index a == kind_index b) ≡ true) ↔ (a ≡ b)
kind_index_iff mgmt b = ground arith
kind_index_iff ctrl b = ground arith
kind_index_iff data_frame b = ground arith
kind_index_iff ext b = ground arith

sounding_index_iff :
    (a b : Option Sounding) → ((sounding_index a == sounding_index b) ≡ true) ↔ (a ≡ b)
sounding_index_iff none b = ground arith
sounding_index_iff (some vht_bfi) b = ground arith
sounding_index_iff (some he_bfi) b = ground arith
sounding_index_iff (some ndpa) b = ground arith

-- Equality of all fields.
unfoldable pub same_bucket : BucketKey → BucketKey → Bool
same_bucket a b =
    ((same_optional a.ta b.ta && same_optional a.bssid b.bssid)
      && (kind_index a.kind == kind_index b.kind && a.subtype == b.subtype))
    && sounding_index a.sounding == sounding_index b.sounding

pub same_bucket_iff : (a b : BucketKey) → (same_bucket a b ≡ true) ↔ (a ≡ b)
unfolding same_bucket
same_bucket_iff a b = ground (
  arith,
  same_optional_iff a.ta b.ta,
  same_optional_iff a.bssid b.bssid,
  kind_index_iff a.kind b.kind,
  sounding_index_iff a.sounding b.sounding,
)

abbrev pub bucket_key : Key BucketKey
bucket_key = record { same = same_bucket; same_iff = same_bucket_iff }
