-- ===== src/Collector/Table/Examples.antt =====
-- Tables of sessions on which the lemmas of this module are applied.
use csid.Collector.Session.{Float64, create}
use csid.Collector.Table.{Table, contains_key, get_or_create, lookup, expire}
use csid.Collector.Table.Expiry.{IsKeyed, IsExpiry, lookup-expire, lookup-get_or_create}
use csid.Prelude.{ℕ, ◌+◌, ◌*◌, ◌≡◌, refl, true, some, [], ◌∷◌}

-- Natural numbers in place of floating-point numbers.
abbrev whole : Float64
whole = record {
  Value = ℕ;
  of_u64 = λ n. n;
  to_u64 = λ n. n;
  add = λ a b. a + b;
  mul = λ a b. a * b;
  to_u64-of_u64 = λ n _. refl;
}

-- A session that was silent from the start, and one with a packet at 21000 ns.
abbrev two : Table whole
two =
    (b'a' ∷ [], create whole)
    ∷ (b'b' ∷ [], record (create whole) { first_ns = 1000; last_ns = 21000; packets = 3 })
    ∷ []

two-IsKeyed : IsKeyed whole two
unfolding contains_key
two-IsKeyed = (refl, (refl, tt))

lookup-expire_example :
    IsExpiry whole 22000 5000
      (lookup whole (b'a' ∷ []) two)
      (lookup whole (b'a' ∷ []) (expire whole 22000 5000 two).0)
lookup-expire_example = lookup-expire whole 22000 5000 (b'a' ∷ []) two two-IsKeyed

lookup-get_or_create_example :
    (t2 : Table whole) × (get_or_create whole true (b'c' ∷ []) two ≡ some t2)
    × IsKeyed whole t2
    × (contains_key whole (b'c' ∷ []) t2 ≡ true)
    × (contains_key whole (b'b' ∷ []) two ≡ true
        → lookup whole (b'b' ∷ []) t2 ≡ lookup whole (b'b' ∷ []) two)
lookup-get_or_create_example = lookup-get_or_create whole (b'c' ∷ []) (b'b' ∷ []) two two-IsKeyed
