-- ===== src/Csid/Source/Attrs.antt =====
-- The attributes that crates/csid/src/source.rs pushes, as its iterator reads them.
use csid.Csid.Inject.{resize}
use csid.Prelude.{take-all, take-append_at, drop-append_right}
use mathlib.Core.Path.{ap₂}
use csid.Csid.Source.{nla_align, Attr, next_attr, attrs_from, iter_attrs, push_attr}
use csid.Prelude.{
  ℕ, zero, suc, ◌+◌, ◌-◌, ◌*◌, ◌/◌, ◌%◌, ◌^◌, ◌≤◌, ◌<◌, min, ◌≡◌, refl, sym, ap, ◌∙◌, false, ◌||◌,
  some, List, [], ◌∷◌, ◌++◌, append-nil, append_assoc, arith,
}
use csid.Prelude.{ltb, le→ltb, length, take, drop, replicate, All, length-append, length-replicate}
use csid.Prelude.Bytes.{le_bytes, of_le_bytes, length-le_bytes, of_le_bytes-le_bytes}

-- An attribute that its length word and its type's fourteen bits hold.
abbrev pub IsAttr : Attr → Type 0
IsAttr a = (a.0 < 2 ^ 14) × (4 + length (a.1) < 2 ^ 16)

abbrev pub push_attrs : List Attr → List ℕ → List ℕ
push_attrs [] out = out
push_attrs (a ∷ rest) out = push_attrs rest (push_attr out (a.0) (a.1))

-- An attribute as it lies in a message: its length, its type, its payload, zeros up to a word.
abbrev pub padding : ℕ → ℕ
padding n = nla_align n - n

unfoldable pub attr_bytes : Attr → List ℕ
attr_bytes (ty, payload) =
    le_bytes 2 (4 + length payload)
    ++ (le_bytes 2 ty ++ (payload ++ replicate (padding (4 + length payload)) 0))

abbrev pub all_bytes : List Attr → List ℕ
all_bytes [] = []
all_bytes (a ∷ rest) = attr_bytes a ++ all_bytes rest

length-attr_bytes : (a : Attr) → length (attr_bytes a) ≡ nla_align (4 + length (a.1))
unfolding attr_bytes
length-attr_bytes (ty, payload) =
    let pad : List ℕ = replicate (padding (4 + length payload)) 0 in
    omega (
      arith,
      length-append (le_bytes 2 (4 + length payload)) (le_bytes 2 ty ++ (payload ++ pad)),
      length-append (le_bytes 2 ty) (payload ++ pad),
      length-append payload pad,
      length-le_bytes 2 (4 + length payload),
      length-le_bytes 2 ty,
      length-replicate {A = ℕ} (padding (4 + length payload)) 0,
    )

resize-aligned :
    (xs : List ℕ) (k n : ℕ)
    → length xs ≡ k * 4 + n
    → resize (nla_align (length xs)) xs ≡ xs ++ replicate (padding n) 0
resize-aligned xs k n h =
    ap₂ (λ (a b : List ℕ). a ++ b) (take-all (nla_align (length xs)) xs (omega arith))
      (ap (λ m. replicate m 0) (omega (arith, h)))

-- At a word's boundary an attribute is pushed as its bytes.
push_attr-aligned :
    (out : List ℕ) (k : ℕ) (a : Attr)
    → length out ≡ k * 4
    → IsAttr a
    → push_attr out (a.0) (a.1) ≡ out ++ attr_bytes a
unfolding push_attr attr_bytes
push_attr-aligned out k (ty, payload) h (ht, hp) =
    let l : List ℕ = le_bytes 2 (4 + length payload) in
    let t : List ℕ = le_bytes 2 ty in
    let pad : List ℕ = replicate (padding (4 + length payload)) 0 in
    let filled : List ℕ = out ++ (l ++ (t ++ payload)) in
    let len : length filled ≡ k * 4 + (4 + length payload) =
      omega (arith, h, length-append out (l ++ (t ++ payload))) in
    let word : (4 + length payload) % 2 ^ 16 ≡ 4 + length payload = omega arith in
    ap (λ n. resize_aligned n) word
    ∙ resize-aligned filled k (4 + length payload) len
    ∙ append_assoc out (l ++ (t ++ payload)) pad
  where
    resize_aligned : ℕ → List ℕ
    resize_aligned n =
        let filled : List ℕ = out ++ (le_bytes 2 n ++ (le_bytes 2 ty ++ payload)) in
        resize (nla_align (length filled)) filled

next_attr-framed :
    (b0 b1 b2 b3 ty : ℕ) (payload pad rest : List ℕ)
    → of_le_bytes (b0 ∷ b1 ∷ []) ≡ 4 + length payload
    → of_le_bytes (b2 ∷ b3 ∷ []) % 2 ^ 14 ≡ ty
    → length pad ≡ padding (4 + length payload)
    → next_attr (b0 ∷ b1 ∷ b2 ∷ b3 ∷ ((payload ++ pad) ++ rest)) ≡ some ((ty, payload), rest)
unfolding next_attr
next_attr-framed b0 b1 b2 b3 ty payload pad rest hl ht hp =
    let head : List ℕ = b0 ∷ b1 ∷ b2 ∷ b3 ∷ [] in
    let buf : List ℕ = b0 ∷ b1 ∷ b2 ∷ b3 ∷ ((payload ++ pad) ++ rest) in
    let total : length buf ≡ 4 + length payload + length pad + length rest =
      omega (arith, length-append (payload ++ pad) rest, length-append payload pad) in
    let long : ltb (length buf) 4 ≡ false = le→ltb (length buf) 4 (omega arith) in
    let fits : (ltb (4 + length payload) 4 || ltb (length buf) (4 + length payload)) ≡ false =
      rw
        (
          le→ltb (4 + length payload) 4 (omega arith),
          le→ltb (length buf) (4 + length payload) (omega (arith, total)),
        )
        refl in
    let body : take (4 + length payload) buf ≡ b0 ∷ b1 ∷ b2 ∷ b3 ∷ payload =
      ap (λ t. take (4 + length payload) (b0 ∷ b1 ∷ b2 ∷ b3 ∷ t)) (append_assoc payload pad rest)
      ∙ take-append_at (b0 ∷ b1 ∷ b2 ∷ b3 ∷ payload) (pad ++ rest) (4 + length payload)
          (omega arith) in
    let behind : drop (min (nla_align (4 + length payload)) (length buf)) buf ≡ rest =
      drop-append_right (b0 ∷ b1 ∷ b2 ∷ b3 ∷ (payload ++ pad)) rest
        (min (nla_align (4 + length payload)) (length buf)) 0
        (omega (arith, total, hp, length-append payload pad)) in
    rw long
      (rw (hl, ht) (rw fits (ap₂ (λ p (r : List ℕ). some ((ty, p), r)) (ap (drop 4) body) behind)))

-- The next attribute of bytes that begin with one is it, and the rest is behind it.
next_attr-attr_bytes :
    (a : Attr) (rest : List ℕ) → IsAttr a → next_attr (attr_bytes a ++ rest) ≡ some (a, rest)
unfolding attr_bytes
next_attr-attr_bytes (ty, payload) rest (ht, hp) =
    next_attr-framed ((4 + length payload) % 256) ((4 + length payload) / 256 % 256) (ty % 256)
      (ty / 256 % 256) ty payload (replicate (padding (4 + length payload)) 0) rest
      (of_le_bytes-le_bytes 2 (4 + length payload) hp)
      (ap (λ t. t % 2 ^ 14) (of_le_bytes-le_bytes 2 ty (omega arith)) ∙ omega arith)
      (length-replicate (padding (4 + length payload)) 0)

-- As many rounds as there are bytes read all attributes; more change nothing.
attrs_from-all_bytes :
    (as_pushed : List Attr) (fuel : ℕ)
    → All IsAttr as_pushed
    → length as_pushed ≤ fuel
    → attrs_from fuel (all_bytes as_pushed) ≡ as_pushed
unfolding attrs_from
attrs_from-all_bytes [] zero h le = refl
attrs_from-all_bytes [] (suc fuel) h le = refl
attrs_from-all_bytes (a ∷ rest) zero h le = absurd (omega arith)
attrs_from-all_bytes (a ∷ rest) (suc fuel) (h, hs) le =
    rw (next_attr-attr_bytes a (all_bytes rest) h)
      (ap (λ t. a ∷ t) (attrs_from-all_bytes rest fuel hs (omega arith)))

length-all_bytes : (pushed : List Attr) → length pushed ≤ length (all_bytes pushed)
length-all_bytes [] = omega arith
length-all_bytes (a ∷ rest) = omega (
  arith,
  length-append (attr_bytes a) (all_bytes rest),
  length-attr_bytes a,
  length-all_bytes rest,
)

pub push_attrs-all_bytes :
    (pushed : List Attr) (out : List ℕ) (k : ℕ)
    → length out ≡ k * 4
    → All IsAttr pushed
    → push_attrs pushed out ≡ out ++ all_bytes pushed
push_attrs-all_bytes [] out k e h = sym (append-nil out)
push_attrs-all_bytes (a ∷ rest) out k e (h, hs) =
    let n = nla_align (4 + length (a.1)) / 4 in
    let first = push_attr-aligned out k a e h in
    ap (push_attrs rest) first
    ∙ push_attrs-all_bytes rest (out ++ attr_bytes a) (k + n)
        (omega (arith, e, length-append out (attr_bytes a), length-attr_bytes a)) hs
    ∙ append_assoc out (attr_bytes a) (all_bytes rest)

pub iter_attrs-all_bytes :
    (pushed : List Attr) → All IsAttr pushed → iter_attrs (all_bytes pushed) ≡ pushed
unfolding iter_attrs
iter_attrs-all_bytes pushed h =
    attrs_from-all_bytes pushed (length (all_bytes pushed)) h (length-all_bytes pushed)

-- Attributes that are pushed one after the other are iterated back in order, whatever their
-- payloads' lengths leave as padding. Types are of fourteen bits, lengths of sixteen.
pub iter_attrs-push_attrs :
    (pushed : List Attr) → All IsAttr pushed → iter_attrs (push_attrs pushed []) ≡ pushed
iter_attrs-push_attrs pushed h =
    ap iter_attrs (push_attrs-all_bytes pushed [] 0 refl h) ∙ iter_attrs-all_bytes pushed h

-- Attributes end at a word's boundary.
words-all_bytes : (pushed : List Attr) → (k : ℕ) × (length (all_bytes pushed) ≡ k * 4)
words-all_bytes [] = (0, refl)
words-all_bytes (a ∷ rest) =
    let (k, e) = words-all_bytes rest in
    let n = nla_align (4 + length (a.1)) / 4 in
    (n + k, omega (arith, e, length-append (attr_bytes a) (all_bytes rest), length-attr_bytes a))

pub words-push_attrs :
    (pushed : List Attr) → All IsAttr pushed → (k : ℕ) × (length (push_attrs pushed []) ≡ k * 4)
words-push_attrs pushed h =
    let (k, e) = words-all_bytes pushed in
    (k, ap length (push_attrs-all_bytes pushed [] 0 refl h) ∙ e)

-- Two attributes take their payloads' lengths, eight bytes, and six of padding at most.
pub length-push_attrs :
    (a b : Attr)
    → IsAttr a
    → IsAttr b
    → length (push_attrs (a ∷ b ∷ []) []) ≤ 14 + length (a.1) + length (b.1)
length-push_attrs a b ha hb = omega (
  arith,
  ap length (push_attrs-all_bytes (a ∷ b ∷ []) [] 0 refl (ha, (hb, tt))),
  length-append (attr_bytes a) (attr_bytes b ++ []),
  length-append (attr_bytes b) [],
  length-attr_bytes a,
  length-attr_bytes b,
)

bound-all_bytes :
    (pushed : List Attr) → All IsAttr pushed → length (all_bytes pushed) ≤ 2 ^ 16 * length pushed
bound-all_bytes [] h = omega arith
bound-all_bytes (a ∷ rest) (h, hs) = omega (
  arith,
  length-append (attr_bytes a) (all_bytes rest),
  length-attr_bytes a,
  bound-all_bytes rest hs,
)

pub bound-push_attrs :
    (pushed : List Attr)
    → All IsAttr pushed
    → length (push_attrs pushed []) ≤ 2 ^ 16 * length pushed
bound-push_attrs pushed h =
    omega (arith, ap length (push_attrs-all_bytes pushed [] 0 refl h), bound-all_bytes pushed h)
