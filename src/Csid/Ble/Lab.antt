-- ===== src/Csid/Ble/Lab.antt =====
-- The lab's identity frame of crates/csid/src/ble.rs: where it stands in an advertisement, and that
-- a frame reported was there.
use csid.Csid.Ble.Adverts.{LabFrame, canonical_uuid, match_uuid_le, match_chunks, lab_of, extract}
use csid.Csid.Ble.Walk.{
  Ad, ad_bytes, ads_bytes, IsInside, IsInside-cons, IsInside-take, IsInside-trans, first_of,
  walk-ad, walk-ads, walk-IsInside, if_or_else-some, if_or_else-false,
}
use mathlib.Core.List.{reverse, reverse-reverse}
use csid.Prelude.Bytes.{length-reverse}
use csid.Prelude.{get_or-append_at, take-append_at}
use csid.Prelude.{
  ℕ, zero, suc, ◌+◌, ◌^◌, ◌<◌, ◌≡◌, refl, ◌∙◌, ◌⊎◌, inl, inr, Bool, true, false, ◌&&◌, ◌||◌, Option,
  none, some, List, [], ◌∷◌, ◌++◌, arith,
}
use csid.Prelude.{
  ltb, leb, ◌==◌, if◌then◌else◌, leb→le, length, get_or, take, length-append, length-take, eq_bytes,
  eq_bytes_refl, eq_bytes→eq,
}
use csid.Prelude.Bytes.{be_bytes, of_be_bytes, length-be_bytes}

-- The namespace and the two keys, as the UUID is written.
abbrev pub lab_uuid : List ℕ → ℕ → ℕ → List ℕ
lab_uuid prefix participant_key session_key =
    prefix ++ (be_bytes 2 participant_key ++ be_bytes 2 session_key)

abbrev pub frame_of : List ℕ → LabFrame
frame_of be = record {
  uuid = canonical_uuid be;
  participant_key = of_be_bytes (get_or be 12 0 ∷ get_or be 13 0 ∷ []);
  session_key = of_be_bytes (get_or be 14 0 ∷ get_or be 15 0 ∷ []);
}

length-lab_uuid :
    (prefix : List ℕ) (p s : ℕ) → length prefix ≡ 12 → length (lab_uuid prefix p s) ≡ 16
length-lab_uuid prefix p s h = omega (
  arith,
  h,
  length-append prefix (be_bytes 2 p ++ be_bytes 2 s),
  length-append (be_bytes 2 p) (be_bytes 2 s),
  length-be_bytes 2 p,
  length-be_bytes 2 s,
)

keys_read :
    (p s : ℕ)
    → p < 256 ^ 2
    → s < 256 ^ 2
    → let keys = be_bytes 2 p ++ be_bytes 2 s in
      (of_be_bytes (get_or keys 0 0 ∷ get_or keys 1 0 ∷ []) ≡ p)
      × (of_be_bytes (get_or keys 2 0 ∷ get_or keys 3 0 ∷ []) ≡ s)
unfolding be_bytes of_be_bytes
keys_read p s hp hs = (omega arith, omega arith)

match_uuid_le-uuid :
    (prefix : List ℕ) (p s : ℕ)
    → length prefix ≡ 12
    → p < 256 ^ 2
    → s < 256 ^ 2
    → match_uuid_le prefix (reverse (lab_uuid prefix p s))
      ≡ some (record {
        uuid = canonical_uuid (lab_uuid prefix p s);
        participant_key = p;
        session_key = s;
      })
unfolding match_uuid_le
match_uuid_le-uuid prefix p s h hp hs =
    let keys : List ℕ = be_bytes 2 p ++ be_bytes 2 s in
    let at : (m k : ℕ) → m ≡ length prefix + k → get_or (prefix ++ keys) m 0 ≡ get_or keys k 0 =
      λ m k e. get_or-append_at prefix keys m k 0 e in
    let front : take 12 (prefix ++ keys) ≡ prefix = take-append_at prefix keys 12 h in
    rw (
      reverse-reverse (prefix ++ keys),
      front,
      eq_bytes_refl prefix,
      at 12 0 (omega arith),
      at 13 1 (omega arith),
      at 14 2 (omega arith),
      at 15 3 (omega arith),
      (keys_read p s hp hs).0,
      (keys_read p s hp hs).1,
    )

match_chunks-first :
    (prefix le more : List ℕ) (f : LabFrame)
    → length le ≡ 16
    → match_uuid_le prefix le ≡ some f
    → match_chunks prefix 0 (le ++ more) ≡ some f
unfolding match_chunks
match_chunks-first prefix [] more f h e = absurd (omega arith)
match_chunks-first prefix (b ∷ le) more f h e =
    let fits : ltb (length (le ++ more)) 15 ≡ false = ground (arith, length-append le more, h) in
    rw (fits, take-append_at (b ∷ le) more 16 h, e)

-- What a UUID that matches is read from.
abbrev pub IsUuidOf : List ℕ → LabFrame → List ℕ → Type 0
IsUuidOf prefix f bytes =
    (le : List ℕ) × IsInside le bytes × (length le ≡ 16) × (match_uuid_le prefix le ≡ some f)

match_chunks-IsUuidOf :
    (prefix : List ℕ) (skip : ℕ) (bytes : List ℕ) (f : LabFrame)
    → match_chunks prefix skip bytes ≡ some f
    → IsUuidOf prefix f bytes
unfolding match_chunks
match_chunks-IsUuidOf prefix skip [] f h = absurd cc
match_chunks-IsUuidOf prefix (suc skip) (b ∷ rest) f h =
    let later = match_chunks-IsUuidOf prefix skip rest f h in
    (later.0, IsInside-cons b later.0 rest later.1, later.2, later.3)
match_chunks-IsUuidOf prefix zero (b ∷ rest) f h =
    let here : List ℕ = take 16 (b ∷ rest) in
    let wide : ltb (length rest) 15 ≡ false =
      if_or_else-false (ltb (length rest) 15) (match_uuid_le prefix here)
        (match_chunks prefix 15 rest) f h in
    elim (if_or_else-some (ltb (length rest) 15) (match_uuid_le prefix here)
      (match_chunks prefix 15 rest) f h) [
        | inl e ↦
            (here, IsInside-take 16 (b ∷ rest), ground (arith, wide, length-take 16 (b ∷ rest)), e)
        | inr e ↦
            let later = match_chunks-IsUuidOf prefix 15 rest f e in
            (later.0, IsInside-cons b later.0 rest later.1, later.2, later.3)
      ]

if-some {ℓ} :
    {A : Type ℓ} (b : Bool) (o p : Option A) (x : A)
    → (if b then o else p) ≡ some x
    → ((b ≡ true) × (o ≡ some x)) ⊎ ((b ≡ false) × (p ≡ some x))
if-some true o p x h = inl (refl, h)
if-some false o p x h = inr (refl, h)

lab_of-uuid :
    (prefix : List ℕ) (ad_type p s : ℕ) (more : List ℕ)
    → length prefix ≡ 12
    → p < 256 ^ 2
    → s < 256 ^ 2
    → (ad_type ≡ 6) ⊎ ((ad_type ≡ 7) ⊎ (ad_type ≡ 0x21))
    → lab_of prefix ad_type (reverse (lab_uuid prefix p s) ++ more)
      ≡ some (record {
        uuid = canonical_uuid (lab_uuid prefix p s);
        participant_key = p;
        session_key = s;
      })
unfolding lab_of
lab_of-uuid prefix t p s more h hp hs kind =
    let le : List ℕ = reverse (lab_uuid prefix p s) in
    let n : length le ≡ 16 = length-reverse (lab_uuid prefix p s) ∙ length-lab_uuid prefix p s h in
    let uuid = match_uuid_le-uuid prefix p s h hp hs in
    elim kind [
      | inl e ↦ rw (e, match_chunks-first prefix le more _ n uuid)
      | inr (inl e) ↦ rw (e, match_chunks-first prefix le more _ n uuid)
      | inr (inr e) ↦
          let wide : leb 16 (length (le ++ more)) ≡ true =
            ground (arith, n, length-append le more) in
          rw (e, wide, take-append_at le more 16 n, uuid)
    ]

length-take_all : (n : ℕ) (xs : List ℕ) → leb n (length xs) ≡ true → length (take n xs) ≡ n
length-take_all n xs h = omega (arith, leb→le n (length xs) h, length-take n xs)

and_right : (a b : Bool) → (a && b) ≡ true → b ≡ true
and_right true b h = h
and_right false b h = absurd cc

service-IsUuidOf :
    (prefix : List ℕ) (b : Bool) (n : ℕ) (payload : List ℕ) (f : LabFrame)
    → n ≡ 16
    → (if b && leb n (length payload) then match_uuid_le prefix (take n payload) else none) ≡ some f
    → IsUuidOf prefix f payload
service-IsUuidOf prefix b n payload f hn h =
    elim (if-some (b && leb n (length payload)) (match_uuid_le prefix (take n payload)) none f h) [
      | inl (c, e) ↦ (
        take n payload,
        IsInside-take n payload,
        length-take_all n payload (and_right b (leb n (length payload)) c) ∙ hn,
        e,
      )
      | inr (c, e) ↦ absurd cc
    ]

lab_of-IsUuidOf :
    (prefix : List ℕ) (ad_type : ℕ) (payload : List ℕ) (f : LabFrame)
    → lab_of prefix ad_type payload ≡ some f
    → IsUuidOf prefix f payload
unfolding lab_of
lab_of-IsUuidOf prefix t payload f h =
    elim (if-some ((t == 6) || (t == 7)) (match_chunks prefix 0 payload)
      (if (t == 0x21) && leb 16 (length payload)
        then match_uuid_le prefix (take 16 payload)
        else none)
      f h) [
        | inl (c, e) ↦ match_chunks-IsUuidOf prefix 0 payload f e
        | inr (c, e) ↦ service-IsUuidOf prefix (t == 0x21) 16 payload f refl e
      ]

match_uuid_le-frame :
    (prefix le : List ℕ) (f : LabFrame)
    → match_uuid_le prefix le ≡ some f
    → (take 12 (reverse le) ≡ prefix) × (frame_of (reverse le) ≡ f)
unfolding match_uuid_le
match_uuid_le-frame prefix le f h =
    elim (if-some (eq_bytes (take 12 (reverse le)) prefix) (some (frame_of (reverse le))) none f
      h) [ inl (c, e) ↦ (eq_bytes→eq (take 12 (reverse le)) prefix c, cc) | inr (c, e) ↦ absurd cc ]

-- A frame that is reported was on the air: sixteen bytes of the advertisement, read from the last to
-- the first, open with the lab's namespace, and the frame is their UUID and its two keys.
pub extract-IsInside :
    (prefix bytes : List ℕ) (f : LabFrame)
    → extract prefix bytes ≡ some f
    → (le : List ℕ) × IsInside le bytes
      × (length le ≡ 16)
      × (take 12 (reverse le) ≡ prefix)
      × (frame_of (reverse le) ≡ f)
unfolding extract
extract-IsInside prefix bytes f h =
    let ad = walk-IsInside (lab_of prefix) 0 bytes f h in
    let uuid = lab_of-IsUuidOf prefix ad.0 ad.1 f ad.3 in
    let read = match_uuid_le-frame prefix uuid.0 f uuid.3 in
    (uuid.0, IsInside-trans uuid.0 ad.1 bytes uuid.1 ad.2, uuid.2, read.0, read.1)

-- A well-formed advertisement with a lab UUID at the front of a structure of one of the three types,
-- behind structures that hold no frame, gives the namespace with the two keys, whatever follows in
-- the structure and behind it.
pub extract-lab_uuid :
    (prefix : List ℕ) (before : List Ad) (ad_type p s : ℕ) (more rest : List ℕ)
    → length prefix ≡ 12
    → p < 256 ^ 2
    → s < 256 ^ 2
    → (ad_type ≡ 6) ⊎ ((ad_type ≡ 7) ⊎ (ad_type ≡ 0x21))
    → first_of (lab_of prefix) before ≡ none
    → extract prefix (
        ads_bytes before
        ++ (ad_bytes (record { ad_type = ad_type; payload = reverse (lab_uuid prefix p s) ++ more })
            ++ rest))
      ≡ some (record {
        uuid = canonical_uuid (lab_uuid prefix p s);
        participant_key = p;
        session_key = s;
      })
unfolding extract
extract-lab_uuid prefix before t p s more rest h hp hs kind clear =
    let ad : Ad = record { ad_type = t; payload = reverse (lab_uuid prefix p s) ++ more } in
    rw (
      walk-ads (lab_of prefix) before (ad_bytes ad ++ rest),
      clear,
      walk-ad (lab_of prefix) ad rest,
      lab_of-uuid prefix t p s more h hp hs kind,
    )
