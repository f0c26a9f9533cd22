-- ===== src/Collector/Table/Expiry.antt =====
-- Which sessions the expiry of crates/collector/src/session.rs closes, and which it keeps.
use csid.Collector.Session.{Float64, Session, create, idle_for}
use csid.Collector.Table.{
  Table, contains_key, get_or_create, lookup, remove, is_expired, expired_keys, push_closed,
  close_keys, expire,
}
use mathlib.Core.Path.{subst}
use csid.Prelude.{
  ℕ, ◌+◌, ◌-◌, ◌≤◌, ◌<◌, max, ◌≡◌, refl, sym, ap, ◌∙◌, ◌⊎◌, inl, inr, Bool, true, false, Option,
  none, some, List, [], ◌∷◌, arith,
}
use csid.Prelude.{ltb→lt, if◌then◌else◌, Bool-cases, eq_bytes, eq_bytes_refl, eq_bytes→eq}

-- A key of a list, as the table compares keys.
abbrev has_key : List ℕ → List (List ℕ) → Bool
has_key uuid [] = false
has_key uuid (key ∷ keys) =
    let later = has_key uuid keys in if eq_bytes key uuid then true else later

-- Two keys that differ are not both equal to a third.
keys_apart :
    (k key uuid : List ℕ)
    → eq_bytes k key ≡ false
    → eq_bytes k uuid ≡ true
    → eq_bytes key uuid ≡ false
keys_apart k key uuid ne e = elim (Bool-cases (eq_bytes key uuid)) [
  | inr other ↦ other
  | inl also ↦
      let same : k ≡ key = eq_bytes→eq k uuid e ∙ sym (eq_bytes→eq key uuid also) in
      let equal : eq_bytes k key ≡ true =
        ap (λ (x : List ℕ). eq_bytes x key) same ∙ eq_bytes_refl key in
      ground arith
]

module _ (f64 : Float64) where
  -- Looking up after a removal: the key is gone, and any other key is as before.
  lookup-remove :
      (uuid key : List ℕ) (t : Table f64)
      → lookup f64 uuid (remove f64 key t) ≡ (if eq_bytes key uuid then none else lookup f64 uuid t)
  unfolding lookup remove
  lookup-remove uuid key [] = ground arith
  lookup-remove uuid key ((k, s) ∷ rest) =
      let later = lookup-remove uuid key rest in
      elim (Bool-cases (eq_bytes k key)) [
        | inl e ↦
            let same : eq_bytes k uuid ≡ eq_bytes key uuid =
              ap (λ (x : List ℕ). eq_bytes x uuid) (eq_bytes→eq k key e) in
            ground arith
        | inr e ↦
            let apart : eq_bytes k uuid ≡ true → eq_bytes key uuid ≡ false =
              keys_apart k key uuid e in
            ground arith
      ]

  lookup-close_keys :
      (keys : List (List ℕ)) (uuid : List ℕ) (t closed : Table f64)
      → lookup f64 uuid (close_keys f64 keys t closed).0
        ≡ (if has_key uuid keys then none else lookup f64 uuid t)
  unfolding close_keys
  lookup-close_keys [] uuid t closed = refl
  lookup-close_keys (key ∷ keys) uuid t closed =
      lookup-close_keys keys uuid (remove f64 key t) (push_closed f64 key (lookup f64 key t) closed)
      ∙ rw (lookup-remove uuid key t) (ground arith)

  -- No two entries have the same key.
  abbrev pub IsKeyed : Table f64 → Type 0
  IsKeyed [] = Unit {0}
  IsKeyed ((key, s) ∷ rest) = (contains_key f64 key rest ≡ false) × IsKeyed rest

  lookup-absent :
      (uuid : List ℕ) (t : Table f64) → contains_key f64 uuid t ≡ false → lookup f64 uuid t ≡ none
  unfolding contains_key lookup
  lookup-absent uuid [] h = refl
  lookup-absent uuid ((key, s) ∷ rest) h =
      let later : contains_key f64 uuid rest ≡ false → lookup f64 uuid rest ≡ none =
        lookup-absent uuid rest in
      ground arith

  -- A key is expired when its session is.
  abbrev is_stale : ℕ → ℕ → Option (Session f64) → Bool
  is_stale now_ns timeout none = false
  is_stale now_ns timeout (some s) = is_expired f64 now_ns timeout s

  has_key-expired_keys :
      (now_ns timeout : ℕ) (uuid : List ℕ) (t : Table f64)
      → IsKeyed t
      → has_key uuid (expired_keys f64 now_ns timeout t)
        ≡ is_stale now_ns timeout (lookup f64 uuid t)
  unfolding expired_keys lookup
  has_key-expired_keys now_ns timeout uuid [] _ = refl
  has_key-expired_keys now_ns timeout uuid ((key, s) ∷ rest) (fresh, keyed) =
      let later = has_key-expired_keys now_ns timeout uuid rest keyed in
      let absent : eq_bytes key uuid ≡ true → lookup f64 uuid rest ≡ none = λ e.
        subst (λ (k : List ℕ). lookup f64 k rest ≡ none) (eq_bytes→eq key uuid e)
          (lookup-absent key rest fresh) in
      elim (Bool-cases (eq_bytes key uuid)) [
        | inl e ↦
            let gone : is_stale now_ns timeout (lookup f64 uuid rest) ≡ false =
              ap (is_stale now_ns timeout) (absent e) in
            let none_later = later ∙ gone in ground arith
        | inr e ↦ ground arith
      ]

  lookup-expire_if :
      (now_ns timeout : ℕ) (uuid : List ℕ) (t : Table f64)
      → IsKeyed t
      → lookup f64 uuid (expire f64 now_ns timeout t).0
        ≡ (if is_stale now_ns timeout (lookup f64 uuid t) then none else lookup f64 uuid t)
  unfolding expire
  lookup-expire_if now_ns timeout uuid t keyed =
      lookup-close_keys (expired_keys f64 now_ns timeout t) uuid t []
      ∙ rw (has_key-expired_keys now_ns timeout uuid t keyed) refl

  -- What a key gives before and after: a session goes when more than the timeout has passed since
  -- both its first and its last packet, and stays when it has not.
  abbrev pub IsExpiry : ℕ → ℕ → Option (Session f64) → Option (Session f64) → Type 0
  IsExpiry now_ns timeout none after = after ≡ none
  IsExpiry now_ns timeout (some s) after =
      ((s.first_ns + timeout < now_ns) × (s.last_ns + timeout < now_ns) × (after ≡ none))
      ⊎ (((now_ns ≤ s.first_ns + timeout) ⊎ (now_ns ≤ s.last_ns + timeout)) × (after ≡ some s))

  if_stale-IsExpiry :
      (now_ns timeout : ℕ) (before : Option (Session f64))
      → IsExpiry now_ns timeout before (if is_stale now_ns timeout before then none else before)
  unfolding idle_for
  if_stale-IsExpiry now_ns timeout none = refl
  if_stale-IsExpiry now_ns timeout (some s) = elim (Bool-cases (is_expired f64 now_ns timeout s)) [
    | inl e ↦
        let long : timeout < now_ns - max s.last_ns s.first_ns = ltb→lt _ _ e in
        rw e (inl (omega arith, omega arith, refl))
    | inr e ↦
        let short : now_ns - max s.last_ns s.first_ns ≤ timeout = ground arith in
        rw e (inr (omega arith, refl))
  ]

  -- On a table with different keys, the expiry drops the sessions of which both the first and the
  -- last packet are more than the timeout ago, and keeps every other session as it is; a key without
  -- a session stays without.
  pub lookup-expire :
      (now_ns timeout : ℕ) (uuid : List ℕ) (t : Table f64)
      → IsKeyed t
      → IsExpiry now_ns timeout
          (lookup f64 uuid t)
          (lookup f64 uuid (expire f64 now_ns timeout t).0)
  lookup-expire now_ns timeout uuid t keyed =
      subst (IsExpiry now_ns timeout (lookup f64 uuid t))
        (sym (lookup-expire_if now_ns timeout uuid t keyed))
        (if_stale-IsExpiry now_ns timeout (lookup f64 uuid t))

  contains_key_head :
      (uuid : List ℕ) (t : Table f64) → contains_key f64 uuid ((uuid, create f64) ∷ t) ≡ true
  unfolding contains_key
  contains_key_head uuid t = rw (eq_bytes_refl uuid) refl

  lookup_below :
      (uuid other : List ℕ) (t : Table f64)
      → contains_key f64 uuid t ≡ false
      → contains_key f64 other t ≡ true
      → lookup f64 other ((uuid, create f64) ∷ t) ≡ lookup f64 other t
  unfolding lookup
  lookup_below uuid other t e h = elim (Bool-cases (eq_bytes uuid other)) [
    | inr ne ↦ ground arith
    | inl same ↦
        let there : contains_key f64 uuid t ≡ true =
          ap (λ (k : List ℕ). contains_key f64 k t) (eq_bytes→eq uuid other same) ∙ h in
        ground arith
  ]

  -- A datagram's session is in the table afterwards; a session that was there is not replaced, and
  -- the keys stay different.
  pub lookup-get_or_create :
      (uuid other : List ℕ) (t : Table f64)
      → IsKeyed t
      → (t2 : Table f64) × (get_or_create f64 true uuid t ≡ some t2)
        × IsKeyed t2
        × (contains_key f64 uuid t2 ≡ true)
        × (contains_key f64 other t ≡ true → lookup f64 other t2 ≡ lookup f64 other t)
  unfolding get_or_create
  lookup-get_or_create uuid other t keyed = elim (Bool-cases (contains_key f64 uuid t)) [
    | inl e ↦ (t, rw e refl, keyed, e, λ _. refl)
    | inr e ↦ (
      (uuid, create f64) ∷ t,
      rw e refl,
      (e, keyed),
      contains_key_head uuid t,
      lookup_below uuid other t e,
    )
  ]
