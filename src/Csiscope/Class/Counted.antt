-- ===== src/Csiscope/Class/Counted.antt =====
-- The census of crates/csiscope/src/class.rs against the records that were added.
use csid.Prelude.Dict.{find, upsert, or_default, find-upsert}
use csid.Csiscope.Class.{
  ClassKey, same_class, same_class_iff, class_key, ClassCensus, new_class_census, next_count,
  add_class, count_class, above, highest_of, dominant,
}
use mathlib.Core.List.{Memᴰ}
use mathlib.Core.Path.{subst}
use csid.Prelude.{
  ℕ, ◌+◌, ◌^◌, ◌≤◌, ◌<◌, ◌≡◌, refl, sym, ap, ◌∙◌, ◌⊎◌, inl, inr, Bool, true, false, Option, none,
  some, List, [], ◌∷◌, arith,
}
use csid.Prelude.{ltb, if◌then◌else◌, Bool-cases, length, All}

abbrev pub add_all : List ClassKey → ClassCensus → ClassCensus
add_all [] c = c
add_all (k ∷ ks) c = add_all ks (add_class k c)

abbrev pub occurrences : ClassKey → List ClassKey → ℕ
occurrences i [] = 0
occurrences i (k ∷ ks) = let rest = occurrences i ks in if same_class k i then rest + 1 else rest

count_class-add_class :
    (i k : ClassKey) (c : ClassCensus)
    → count_class i (add_class k c)
      ≡ (if same_class k i then next_count (count_class i c) else count_class i c)
unfolding count_class add_class
count_class-add_class i k c =
    ap (or_default class_key 0) (find-upsert class_key k i 0 next_count c.counts)
    ∙ elim (Bool-cases (same_class k i)) [
      | inl e ↦ rw e (
          ap (λ (j : ClassKey). next_count (or_default class_key 0 (find class_key j c.counts)))
            ((same_class_iff k i).0 e))
      | inr e ↦ rw e refl
    ]

IsBelow : ℕ → ClassCensus → Type 0
IsBelow n c = (i : ClassKey) → count_class i c ≤ n

add_class-IsBelow :
    (k : ClassKey) (c : ClassCensus) (n : ℕ)
    → IsBelow n c
    → n + 1 < 2 ^ 64
    → IsBelow (n + 1) (add_class k c)
unfolding IsBelow
add_class-IsBelow k c n h room i =
    let was = h i in
    let now = count_class-add_class i k c in
    elim (Bool-cases (same_class k i)) [
      | inl e ↦ let grown = rw e at now in omega arith
      | inr e ↦ let kept = rw e at now in omega arith
    ]

count_class-add_all :
    (i : ClassKey) (ks : List ClassKey) (c : ClassCensus) (n : ℕ)
    → IsBelow n c
    → n + length ks < 2 ^ 64
    → count_class i (add_all ks c) ≡ count_class i c + occurrences i ks
unfolding IsBelow
count_class-add_all i [] c n h room = omega arith
count_class-add_all i (k ∷ ks) c n h room =
    let rest =
      count_class-add_all i ks (add_class k c) (n + 1) (add_class-IsBelow k c n h (omega arith))
        (omega arith) in
    let was = h i in
    let now = count_class-add_class i k c in
    elim (Bool-cases (same_class k i)) [
      | inl e ↦ let grown = rw e at now in rw e (omega arith)
      | inr e ↦ let kept = rw e at now in rw e (omega arith)
    ]

-- After any records, each class has the number of its records.
pub count_class-occurrences :
    (i : ClassKey) (ks : List ClassKey)
    → length ks < 2 ^ 64
    → count_class i (add_all ks new_class_census) ≡ occurrences i ks
unfolding IsBelow count_class find
count_class-occurrences i ks room =
    count_class-add_all i ks new_class_census 0 (λ j. omega arith) (omega arith) ∙ omega arith

-- No class has two entries.
abbrev IsDistinct : List (ClassKey × ℕ) → Type 0
IsDistinct [] = Unit {0}
IsDistinct ((j, n) ∷ m) = (find class_key j m ≡ none) × IsDistinct m

upsert-IsDistinct :
    (k : ClassKey) (m : List (ClassKey × ℕ))
    → IsDistinct m
    → IsDistinct (upsert class_key k 0 next_count m)
unfolding upsert find
upsert-IsDistinct k [] h = (refl, tt)
upsert-IsDistinct k ((j, n) ∷ m) (gone, h) = elim (Bool-cases (same_class j k)) [
  | inl e ↦ rw e (gone, h)
  | inr e ↦
      let back : same_class k j ≡ false = swapped (Bool-cases (same_class k j)) e in
      rw e (find-upsert class_key k j 0 next_count m ∙ rw back gone, upsert-IsDistinct k m h)
]
  where
    swapped :
        (same_class k j ≡ true) ⊎ (same_class k j ≡ false)
        → same_class j k ≡ false
        → same_class k j ≡ false
    swapped (inr q) e = q
    swapped (inl q) e =
        let equal = (same_class_iff k j).0 q in
        let also : same_class j k ≡ true = (same_class_iff j k).1 (sym equal) in cc

add_all-IsDistinct :
    (ks : List ClassKey) (c : ClassCensus) → IsDistinct c.counts → IsDistinct (add_all ks c).counts
unfolding add_class
add_all-IsDistinct [] c h = h
add_all-IsDistinct (k ∷ ks) c h =
    add_all-IsDistinct ks (add_class k c) (upsert-IsDistinct k c.counts h)

-- An entry is what its class is found under.
find-entry :
    (k : ClassKey) (n : ℕ) (m : List (ClassKey × ℕ))
    → IsDistinct m
    → Memᴰ (k, n) m
    → find class_key k m ≡ some n
unfolding find
find-entry k n ((j, v) ∷ m) (gone, h) (Memᴰ.head q) =
    let own : same_class j k ≡ true =
      (same_class_iff j k).1 (sym (ap (λ (p : ClassKey × ℕ). p.0) q)) in
    rw own (ap (λ (x : ℕ). some x) (sym (ap (λ (p : ClassKey × ℕ). p.1) q)))
find-entry k n ((j, v) ∷ m) (gone, h) (Memᴰ.tail d) =
    let later = find-entry k n m h d in
    elim (Bool-cases (same_class j k)) [
      | inl e ↦
          let moved : find class_key k m ≡ none =
            subst (λ (i : ClassKey). find class_key i m ≡ none) ((same_class_iff j k).0 e) gone in
          cc
      | inr e ↦ rw e later
    ]
find-entry k n [] h d = elim d [ ]

above-le : (a b : ClassKey × ℕ) → above a b ≡ true → b.1 ≤ a.1
unfolding above
above-le (k, m) (j, n) h = counts_le m n _ h
  where
    counts_le :
        (m n : ℕ) (t : Bool)
        → (if ltb n m then true else if ltb m n then false else t) ≡ true
        → n ≤ m
    counts_le m n t h = ground arith

not_above-le : (a b : ClassKey × ℕ) → above a b ≡ false → a.1 ≤ b.1
unfolding above
not_above-le (k, m) (j, n) h = counts_le m n _ h
  where
    counts_le :
        (m n : ℕ) (t : Bool)
        → (if ltb n m then true else if ltb m n then false else t) ≡ false
        → m ≤ n
    counts_le m n t h = ground arith

abbrev IsHighest : ClassKey × ℕ → List (ClassKey × ℕ) → Type 0
IsHighest r es = Memᴰ r es × All (λ (e : ClassKey × ℕ). e.1 ≤ r.1) es

highest_of-IsHighest :
    (best : ClassKey × ℕ) (es : List (ClassKey × ℕ)) → IsHighest (highest_of best es) (best ∷ es)
highest_of-IsHighest best [] = (Memᴰ.head refl, (omega arith, tt))
highest_of-IsHighest best (e ∷ es) = elim (Bool-cases (above best e)) [
  | inl h ↦
      let (m, (first, rest)) = highest_of-IsHighest best es in
      let le = above-le best e h in
      subst (λ r. IsHighest r (best ∷ e ∷ es)) (sym (rw h refl))
        (behind m, (first, (omega arith, rest)))
  | inr h ↦
      let (m, (first, rest)) = highest_of-IsHighest e es in
      let le = not_above-le best e h in
      subst (λ r. IsHighest r (best ∷ e ∷ es)) (sym (rw h refl))
        (Memᴰ.tail m, (omega arith, (first, rest)))
]
  where
    behind : {r : ClassKey × ℕ} → Memᴰ r (best ∷ es) → Memᴰ r (best ∷ e ∷ es)
    behind (Memᴰ.head q) = Memᴰ.head q
    behind (Memᴰ.tail m) = Memᴰ.tail (Memᴰ.tail m)

found_le :
    (i : ClassKey) (n : ℕ) (m : List (ClassKey × ℕ))
    → All (λ (e : ClassKey × ℕ). e.1 ≤ n) m
    → or_default class_key 0 (find class_key i m) ≤ n
unfolding find
found_le i n [] h = omega arith
found_le i n ((j, v) ∷ m) (k, h) = elim (Bool-cases (same_class j i)) [
  | inl e ↦ rw e k
  | inr e ↦ rw e (found_le i n m h)
]

-- The class that is shown by default, of the records that were added.
abbrev pub IsDominant : List ClassKey → Option ClassKey → Type 0
IsDominant ks none = (i : ClassKey) → occurrences i ks ≡ 0
IsDominant ks (some k) = (i : ClassKey) → occurrences i ks ≤ occurrences k ks

empty_count : (i : ClassKey) → or_default class_key 0 (find {V = ℕ} class_key i []) ≡ 0
unfolding find
empty_count i = refl

dominant-counts :
    (c : ClassCensus)
    → IsDistinct c.counts
    → (dominant c ≡ none × ((i : ClassKey) → count_class i c ≡ 0))
      ⊎ ((k : ClassKey) × (dominant c ≡ some k)
          × ((i : ClassKey) → count_class i c ≤ count_class k c))
unfolding dominant count_class
dominant-counts c h = judged c.counts h refl
  where
    judged :
        (m : List (ClassKey × ℕ))
        → IsDistinct m
        → c.counts ≡ m
        → (dominant c ≡ none × ((i : ClassKey) → count_class i c ≡ 0))
          ⊎ ((k : ClassKey) × (dominant c ≡ some k)
              × ((i : ClassKey) → count_class i c ≤ count_class k c))
    judged [] h e = inl (rw e refl, λ i. rw e (empty_count i))
    judged (f ∷ m) h e =
        let best = highest_of f m in
        let (there, all) = highest_of-IsHighest f m in
        inr (
          best.0,
          rw e refl,
          λ i.
              rw (e, find-entry (best.0) (best.1) (f ∷ m) h there)
                (found_le i (best.1) (f ∷ m) all),
        )

-- After any records the dominant class is one that no other has more records than; there is none only
-- where there are no records.
pub dominant-IsDominant :
    (ks : List ClassKey)
    → length ks < 2 ^ 64
    → IsDominant ks (dominant (add_all ks new_class_census))
dominant-IsDominant ks room =
    elim (dominant-counts (add_all ks new_class_census)
      (add_all-IsDistinct ks new_class_census tt)) [
        | inl (e, all) ↦ rw e (λ i. sym (count_class-occurrences i ks room) ∙ all i)
        | inr (k, e, all) ↦ rw e (λ i.
            let most = all i in
            omega (arith, count_class-occurrences i ks room, count_class-occurrences k ks room))
      ]
