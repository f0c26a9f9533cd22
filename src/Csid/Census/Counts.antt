-- ===== src/Csid/Census/Counts.antt =====
-- The counts of crates/csid/src/census.rs against the frames that were noted.
use csid.Prelude.Dict.{find, or_default, find-upsert}
use csid.Csid.Census.{Classified}
use csid.Csid.Census.Keys.{
  BucketKey, same_optional, kind_index, sounding_index, bucket_key, same_bucket, same_bucket_iff,
}
use csid.Csid.Census.Tally.{bucket_of, Minute, new_minute, bump, note_minute, plus_one, fold_frames}
use csid.Prelude.{
  ℕ, ◌+◌, ◌%◌, ◌^◌, ◌<◌, ◌≡◌, refl, sym, ap, ◌∙◌, ◌&&◌, inl, inr, Bool, true, false, List, [], ◌∷◌,
  arith,
}
use csid.Prelude.{◌==◌, if◌then◌else◌, Bool-cases}

-- Whether a frame has all five parts of a key.
abbrev falls_in : BucketKey → Classified → Bool
falls_in k c =
    ((same_optional c.ta k.ta && same_optional c.bssid k.bssid)
      && (kind_index c.kind == kind_index k.kind && c.subtype == k.subtype))
    && sounding_index c.sounding == sounding_index k.sounding

same_bucket-bucket_of :
    (k : BucketKey) (c : Classified) → same_bucket (bucket_of c) k ≡ falls_in k c
unfolding same_bucket bucket_of
same_bucket-bucket_of k c = refl

-- The frames of a list with the key's transmitter, BSSID, kind, subtype and label, and those of them
-- with the Protected bit.
abbrev pub frames_in : BucketKey → List Classified → ℕ × ℕ
frames_in k [] = (0, 0)
frames_in k (c ∷ cs) =
    let rest = frames_in k cs in
    if falls_in k c then (rest.0 + 1, if c.protected then rest.1 + 1 else rest.1) else rest

pair_path : (a b c d : ℕ) → a ≡ c → b ≡ d → ◌≡◌ {A = ℕ × ℕ} (a, b) (c, d)
pair_path a b c d e h = cc

-- What `n` frames more make of a count.
abbrev after : ℕ × ℕ → ℕ × ℕ → ℕ × ℕ
after e n = ((e.0 + n.0) % 2 ^ 64, (e.1 + n.1) % 2 ^ 64)

-- One frame counts in its own bucket, and in no other.
note_minute-find :
    (k : BucketKey) (c : Classified) (m : Minute)
    → or_default bucket_key (0, 0) (find bucket_key k (note_minute c m).buckets) ≡ (
        if same_bucket (bucket_of c) k
        then bump c.protected (or_default bucket_key (0, 0) (find bucket_key k m.buckets))
        else or_default bucket_key (0, 0) (find bucket_key k m.buckets))
unfolding note_minute
note_minute-find k c m =
    let key : same_bucket (bucket_of c) k ≡ true → bucket_of c ≡ k =
      (same_bucket_iff (bucket_of c) k).0 in
    ap (or_default bucket_key (0, 0))
      (find-upsert bucket_key (bucket_of c) k (0, 0) (bump c.protected) m.buckets)
    ∙ elim (Bool-cases (same_bucket (bucket_of c) k)) [
      | inl e ↦ rw e (
          ap
            (λ (j : BucketKey).
              bump c.protected (or_default bucket_key (0, 0) (find bucket_key j m.buckets)))
            (key e))
      | inr e ↦ rw e refl
    ]

after-bump :
    (p : Bool) (a b : ℕ) (n : ℕ × ℕ)
    → after (bump p (a, b)) n ≡ after (a, b) (n.0 + 1, if p then n.1 + 1 else n.1)
after-bump true a b n = pair_path _ _ _ _ (omega arith) (omega arith)
after-bump false a b n = pair_path _ _ _ _ (omega arith) refl

bump-lt :
    (p : Bool) (a b : ℕ)
    → a < 2 ^ 64
    → b < 2 ^ 64
    → ((bump p (a, b)).0 < 2 ^ 64) × ((bump p (a, b)).1 < 2 ^ 64)
bump-lt true a b ha hb = (omega arith, omega arith)
bump-lt false a b ha hb = (omega arith, hb)

fold_minute :
    (k : BucketKey) (cs : List Classified) (m : Minute) (a b : ℕ)
    → a < 2 ^ 64
    → b < 2 ^ 64
    → or_default bucket_key (0, 0) (find bucket_key k m.buckets) ≡ (a, b)
    → or_default bucket_key (0, 0) (find bucket_key k (fold_frames note_minute cs m).buckets)
      ≡ after (a, b) (frames_in k cs)
fold_minute k [] m a b ha hb h = h ∙ pair_path a b _ _ (omega arith) (omega arith)
fold_minute k (c ∷ cs) m a b ha hb h =
    let one = note_minute-find k c m in
    let small = bump-lt c.protected a b ha hb in
    elim (Bool-cases (same_bucket (bucket_of c) k)) [
      | inl e ↦
          let falls = sym (same_bucket-bucket_of k c) ∙ e in
          fold_minute k cs (note_minute c m) (plus_one a) (bump c.protected (a, b)).1 small.0
            small.1 (one ∙ rw (e, h) refl)
          ∙ rw falls (after-bump c.protected a b (frames_in k cs))
      | inr e ↦
          fold_minute k cs (note_minute c m) a b ha hb (one ∙ rw (e, h) refl)
          ∙ rw (sym (same_bucket-bucket_of k c) ∙ e) refl
    ]

-- A minute's bucket holds the number of frames noted with the transmitter, BSSID, kind, subtype and
-- label of its key, and of the protected ones among them, as 64-bit counters.
pub note_minute-frames_in :
    (minute_unix : ℕ) (cs : List Classified) (k : BucketKey)
    → or_default bucket_key
        (0, 0)
        (find bucket_key k (fold_frames note_minute cs (new_minute minute_unix)).buckets)
      ≡ ((frames_in k cs).0 % 2 ^ 64, (frames_in k cs).1 % 2 ^ 64)
unfolding find
note_minute-frames_in t cs k =
    fold_minute k cs (new_minute t) 0 0 (omega arith) (omega arith) refl
    ∙ pair_path _ _ _ _ (omega arith) (omega arith)
