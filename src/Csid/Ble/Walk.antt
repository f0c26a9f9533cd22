-- ===== src/Csid/Ble/Walk.antt =====
-- The AD structures of crates/csid/src/ble.rs taken apart: a structure written out is found again,
-- and what is found stands among the bytes.
use csid.Csid.Ble.Adverts.{or_else, walk}
use csid.Prelude.{length-append, take-append, take-append-drop}
use csid.Prelude.{
  ℕ, zero, suc, ◌-◌, ◌≡◌, refl, sym, ap, ◌∙◌, ◌⊎◌, inl, inr, Bool, true, false, ◌||◌, Option, none,
  some, List, [], ◌∷◌, ◌++◌, append_assoc, arith,
}
use csid.Prelude.{
  ltb, ◌==◌, if◌then◌else◌, length, get_or, take, drop, length-append, take-append-drop,
  take-append,
}

pub record Ad : Type 0 where
  pub ad_type : ℕ
  pub payload : List ℕ

-- A structure on the air: its length counts the type.
abbrev pub ad_bytes : Ad → List ℕ
ad_bytes a = suc (length a.payload) ∷ a.ad_type ∷ a.payload

abbrev pub ads_bytes : List Ad → List ℕ
ads_bytes [] = []
ads_bytes (a ∷ ads) = ad_bytes a ++ ads_bytes ads

-- A run of bytes that stands somewhere in the others.
abbrev pub IsInside : List ℕ → List ℕ → Type 0
IsInside xs ys = (l : List ℕ) × (r : List ℕ) × (ys ≡ l ++ (xs ++ r))

pub IsInside-cons : (b : ℕ) (xs ys : List ℕ) → IsInside xs ys → IsInside xs (b ∷ ys)
IsInside-cons b xs ys (l, r, e) = (b ∷ l, r, ap (λ t. b ∷ t) e)

pub IsInside-take : (n : ℕ) (xs : List ℕ) → IsInside (take n xs) xs
IsInside-take n xs = ([], drop n xs, sym (take-append-drop n xs))

pub IsInside-drop : (n : ℕ) (xs ys : List ℕ) → IsInside xs (drop n ys) → IsInside xs ys
IsInside-drop zero xs ys h = h
IsInside-drop (suc n) xs [] h = h
IsInside-drop (suc n) xs (y ∷ ys) h = IsInside-cons y xs ys (IsInside-drop n xs ys h)

pub IsInside-trans : (xs ys zs : List ℕ) → IsInside xs ys → IsInside ys zs → IsInside xs zs
IsInside-trans xs ys zs (l, r, e) (k, s, f) = (k ++ l, r ++ s, f ∙ ap (λ t. k ++ t) inner ∙ outer)
  where
    inner : ys ++ s ≡ l ++ (xs ++ (r ++ s))
    inner = rw (e, append_assoc, append_assoc)

    outer : k ++ (l ++ (xs ++ (r ++ s))) ≡ (k ++ l) ++ (xs ++ (r ++ s))
    outer = sym (append_assoc k l (xs ++ (r ++ s)))

module _ {ℓ} {A : Type ℓ} where
  or_else_assoc : (o p q : Option A) → or_else (or_else o p) q ≡ or_else o (or_else p q)
  or_else_assoc none p q = refl
  or_else_assoc (some x) p q = refl

  pub if_or_else-some :
      (b : Bool) (o later : Option A) (x : A)
      → (if b then none else or_else o later) ≡ some x
      → (o ≡ some x) ⊎ (later ≡ some x)
  if_or_else-some true o later x h = absurd cc
  if_or_else-some false none later x h = inr h
  if_or_else-some false (some y) later x h = inl h

  pub if_or_else-false :
      (b : Bool) (o later : Option A) (x : A)
      → (if b then none else or_else o later) ≡ some x
      → b ≡ false
  if_or_else-false true o later x h = absurd cc
  if_or_else-false false o later x h = refl

module _ {ℓ} {A : Type ℓ} (found : ℕ → List ℕ → Option A) where
  abbrev pub first_of : List Ad → Option A
  first_of [] = none
  first_of (a ∷ ads) = or_else (found a.ad_type a.payload) (first_of ads)

  walk-skip : (xs rest : List ℕ) → walk found (length xs) (xs ++ rest) ≡ walk found 0 rest
  unfolding walk
  walk-skip [] rest = refl
  walk-skip (x ∷ xs) rest = walk-skip xs rest

  pub walk-ad :
      (a : Ad) (rest : List ℕ)
      → walk found 0 (ad_bytes a ++ rest) ≡ or_else (found a.ad_type a.payload) (walk found 0 rest)
  unfolding walk
  walk-ad a rest =
      rw (fits, pred (length a.payload), take-append a.payload rest, walk-skip a.payload rest)
    where
      fits :
          ((suc (length a.payload) == 0)
            || ltb (suc (length (a.payload ++ rest))) (suc (length a.payload)))
          ≡ false
      fits = ground (arith, length-append a.payload rest)

      pred : (n : ℕ) → suc n - 1 ≡ n
      pred n = omega arith

  pub walk-ads :
      (ads : List Ad) (rest : List ℕ)
      → walk found 0 (ads_bytes ads ++ rest) ≡ or_else (first_of ads) (walk found 0 rest)
  walk-ads [] rest = refl
  walk-ads (a ∷ ads) rest = rw (
    append_assoc (ad_bytes a) (ads_bytes ads) rest,
    walk-ad a (ads_bytes ads ++ rest),
    walk-ads ads rest,
    or_else_assoc (found a.ad_type a.payload) (first_of ads) (walk found 0 rest),
  )

  pub walk-IsInside :
      (skip : ℕ) (bytes : List ℕ) (x : A)
      → walk found skip bytes ≡ some x
      → (t : ℕ) × (payload : List ℕ) × IsInside payload bytes × (found t payload ≡ some x)
  unfolding walk
  walk-IsInside skip [] x h = absurd cc
  walk-IsInside (suc skip) (b ∷ rest) x h =
      let later = walk-IsInside skip rest x h in
      (later.0, later.1, IsInside-cons b later.1 rest later.2, later.3)
  walk-IsInside zero (n ∷ rest) x h =
      elim (if_or_else-some ((n == 0) || ltb (length rest) n)
        (found (get_or rest 0 0) (take (n - 1) (drop 1 rest))) (walk found n rest) x h) [
          | inl e ↦ (
            get_or rest 0 0,
            take (n - 1) (drop 1 rest),
            IsInside-cons n (take (n - 1) (drop 1 rest)) rest (
                IsInside-drop 1 (take (n - 1) (drop 1 rest)) rest
                  (IsInside-take (n - 1) (drop 1 rest))),
            e,
          )
          | inr e ↦
              let later = walk-IsInside n rest x e in
              (later.0, later.1, IsInside-cons n later.1 rest later.2, later.3)
        ]
