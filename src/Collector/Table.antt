-- ===== src/Collector/Table.antt =====
-- The SessionTable of crates/collector/src/session.rs: an association list in place of the hash
-- map, with the text of a session's UUID as its key. A summary is the session that it is taken of.
pub mod Expiry
mod Examples
use csid.Collector.Session.{Float64, Session, create, idle_for}
use csid.Prelude.{
  ℕ, zero, suc, ◌+◌, ◌-◌, ◌*◌, ◌/◌, ◌%◌, ◌^◌, ◌≤◌, ◌<◌, min, max, ◌≡◌, refl, sym, ap, ◌∙◌, ◌≢◌, ◌↔◌,
  ◌⊎◌, inl, inr, Bool, true, false, not, ◌&&◌, ◌||◌, Option, none, some, List, [], ◌∷◌, ◌++◌, map,
  append-nil, append_assoc, arith,
}
use csid.Prelude.{
  ltb, leb, ◌==◌, if◌then◌else◌, ltb→lt, lt→ltb, le→ltb, le→leb, lt→leb, leb→le, ==_iff, ==_refl,
  Bool-cases, Option-cases, length, get_elem?, get_or, range_map, length-range_map,
  get_elem?-range_map, get_elem?-append_right, get_elem?-append_left, take, drop, replicate, All,
  length-append, length-take, length-drop, length-replicate, take-append-drop, take-append,
  drop-append, All-append, eq_bytes, eq_bytes_refl, eq_bytes→eq,
}
use csid.Prelude.Bytes.{
  IsByte, le_bytes, of_le_bytes, be_bytes, of_be_bytes, length-le_bytes, length-be_bytes,
  le_bytes-IsByte, of_le_bytes-le_bytes, of_be_bytes-be_bytes, of_le_bytes-lt, le_bytes-of_le_bytes,
  get_or-IsByte,
}
use csid.Prelude.Int.{
  ℤ, pos, negsuc, pos_part, neg_part, sub_ℕ, IsSigned, to_pattern, of_pattern, to_pattern-lt,
  of_pattern-to_pattern, of_pattern-IsSigned,
}

module _ (f64 : Float64) where
  abbrev pub Table : Type 0
  Table = List (List ℕ × Session f64)

  -- `inner.contains_key(uuid)`.
  unfoldable pub contains_key : List ℕ → Table → Bool
  contains_key uuid [] = false
  contains_key uuid ((key, s) ∷ rest) =
      let later = contains_key uuid rest in if eq_bytes key uuid then true else later

  -- `created` says whether the session's files could be made.
  unfoldable pub get_or_create : (created : Bool) → List ℕ → Table → Option Table
  unfolding contains_key
  get_or_create created uuid inner =
      if contains_key uuid inner
      then some inner
      else if created
      then some ((uuid, create f64) ∷ inner)
      else none

  -- `inner.get(uuid)`.
  unfoldable pub lookup : List ℕ → Table → Option (Session f64)
  lookup uuid [] = none
  lookup uuid ((key, s) ∷ rest) =
      let later = lookup uuid rest in if eq_bytes key uuid then some s else later

  -- `inner.remove(uuid)`, the table without the key.
  unfoldable pub remove : List ℕ → Table → Table
  remove uuid [] = []
  remove uuid ((key, s) ∷ rest) =
      let later = remove uuid rest in if eq_bytes key uuid then later else (key, s) ∷ later

  abbrev pub is_expired : ℕ → ℕ → Session f64 → Bool
  is_expired now_ns idle_timeout_ns s = ltb idle_timeout_ns (idle_for f64 now_ns s)

  unfoldable pub expired_keys : ℕ → ℕ → Table → List (List ℕ)
  expired_keys now_ns idle_timeout_ns [] = []
  expired_keys now_ns idle_timeout_ns ((key, s) ∷ rest) =
      let later = expired_keys now_ns idle_timeout_ns rest in
      if is_expired now_ns idle_timeout_ns s then key ∷ later else later

  -- `closed.push((key, summary))`, if the key was there.
  abbrev pub push_closed : List ℕ → Option (Session f64) → Table → Table
  push_closed key none closed = closed
  push_closed key (some s) closed = closed ++ ((key, s) ∷ [])

  -- The loop over the expired keys: what is left, and what was closed.
  unfoldable pub close_keys : List (List ℕ) → Table → Table → Table × Table
  close_keys [] inner closed = (inner, closed)
  close_keys (key ∷ keys) inner closed =
      close_keys keys (remove key inner) (push_closed key (lookup key inner) closed)

  unfoldable pub expire : ℕ → ℕ → Table → Table × Table
  expire now_ns idle_timeout_ns inner =
      close_keys (expired_keys now_ns idle_timeout_ns inner) inner []
