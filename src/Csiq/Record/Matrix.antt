-- ===== src/Csiq/Record/Matrix.antt =====
-- crates/csiq/src/record.rs, the accessors of `CsiRecord`: the CSI matrix in tone-major order, one
-- chain of it, and which chains measured. An i16 that becomes an f32 keeps its value, and stays an
-- integer here.
use csid.Prelude.{
  ℕ, zero, suc, ◌+◌, ◌*◌, ◌<◌, ◌≡◌, sym, ap, ◌∙◌, ◌≢◌, Bool, true, false, not, ◌&&◌, ◌||◌, Option,
  none, some, List, [], ◌∷◌, ◌++◌, map, arith,
}
use csid.Prelude.{
  leb, ◌==◌, if◌then◌else◌, lt→leb, ==_iff, length, get_elem?, get_or, range_map, length-range_map,
  get_elem?-range_map, get_elem?-append_right, get_elem?-append_left, length-append,
}
use csid.Prelude.Int.{ℤ, pos, negsuc}
use csid.Csiq.Record.{CsiRecord}

unfoldable pub coeff_count : CsiRecord → ℕ
coeff_count r = r.ntone * r.nrx * r.ntx

abbrev pub chains : CsiRecord → ℕ
chains r = r.nrx * r.ntx

-- The coefficient stored at `i`, imaginary part first, as (re, im).
abbrev pub coeff : List ℤ → ℕ → ℤ × ℤ
coeff iq i = (get_or iq (i + 1) (pos 0), get_or iq i (pos 0))

-- The inner loop over the chains of tone `t`, and the outer loop over the tones from `t`.
unfoldable pub tone_row : CsiRecord → ℕ → List (ℤ × ℤ)
tone_row r t = range_map (λ c. coeff r.iq (2 * (c * r.ntone + t))) 0 (chains r)

unfoldable pub tone_rows : CsiRecord → ℕ → ℕ → List (ℤ × ℤ)
tone_rows r t zero = []
tone_rows r t (suc n) = tone_row r t ++ tone_rows r (t + 1) n

unfoldable pub complex : CsiRecord → Option (List (ℤ × ℤ))
unfolding coeff_count
complex r =
    if not (length r.iq == 2 * coeff_count r) || (coeff_count r == 0)
    then none
    else some (tone_rows r 0 r.ntone)

unfoldable pub chain : CsiRecord → ℕ → Option (List (ℤ × ℤ))
unfolding coeff_count
chain r c =
    if leb (chains r) c || (not (length r.iq == 2 * coeff_count r) || (r.ntone == 0))
    then none
    else some (range_map (λ t. coeff r.iq (2 * (c * r.ntone + t))) 0 r.ntone)

-- -127 dBm.
abbrev pub rssi_no_measurement : ℤ
rssi_no_measurement = negsuc 126

abbrev is_measured : ℤ → Bool
is_measured (pos n) = true
is_measured (negsuc n) = not (n == 126)

unfoldable pub chains_measured : CsiRecord → List Bool
chains_measured r = map is_measured r.rssi

all_true : List Bool → Bool
all_true [] = true
all_true (b ∷ bs) = b && all_true bs

unfoldable pub fully_measured : CsiRecord → Bool
unfolding all_true
fully_measured r = not (length r.rssi == 0) && all_true (map is_measured r.rssi)

length-tone_rows : (r : CsiRecord) (t n : ℕ) → length (tone_rows r t n) ≡ n * chains r
unfolding tone_rows tone_row
length-tone_rows r t zero = omega arith
length-tone_rows r t (suc n) = omega (
  arith,
  length-append (tone_row r t) (tone_rows r (t + 1) n),
  length-range_map (λ c. coeff r.iq (2 * (c * r.ntone + t))) 0 (chains r),
  length-tone_rows r (t + 1) n,
)

row_elem :
    (r : CsiRecord) (t c : ℕ)
    → c < chains r
    → get_elem? (tone_row r t) c ≡ some (coeff r.iq (2 * (c * r.ntone + t)))
unfolding tone_row
row_elem r t c h =
    let same : 0 + c ≡ c = omega arith in
    get_elem?-range_map (λ k. coeff r.iq (2 * (k * r.ntone + t))) 0 (chains r) c h
    ∙ ap (λ (k : ℕ). some (coeff r.iq (2 * (k * r.ntone + t)))) same

length-tone_row : (r : CsiRecord) (t : ℕ) → length (tone_row r t) ≡ chains r
unfolding tone_row
length-tone_row r t = length-range_map (λ c. coeff r.iq (2 * (c * r.ntone + t))) 0 (chains r)

get_elem?-tone_rows :
    (r : CsiRecord) (t0 n t c : ℕ)
    → t < n
    → c < chains r
    → get_elem? (tone_rows r t0 n) (t * chains r + c)
      ≡ some (coeff r.iq (2 * (c * r.ntone + (t0 + t))))
unfolding tone_rows
get_elem?-tone_rows r t0 zero t c ht hc = absurd (omega arith)
get_elem?-tone_rows r t0 (suc n) zero c ht hc =
    let here : 0 * chains r + c ≡ c = omega arith in
    let same : t0 ≡ t0 + 0 = omega arith in
    ap (get_elem? (tone_row r t0 ++ tone_rows r (t0 + 1) n)) here
    ∙ get_elem?-append_left (tone_row r t0) (tone_rows r (t0 + 1) n) c
        (omega (arith, length-tone_row r t0))
    ∙ row_elem r t0 c hc
    ∙ ap (λ (k : ℕ). some (coeff r.iq (2 * (c * r.ntone + k)))) same
get_elem?-tone_rows r t0 (suc n) (suc t) c ht hc =
    let past : suc t * chains r + c ≡ length (tone_row r t0) + (t * chains r + c) =
      omega (arith, length-tone_row r t0) in
    let same : t0 + 1 + t ≡ t0 + suc t = omega arith in
    ap (get_elem? (tone_row r t0 ++ tone_rows r (t0 + 1) n)) past
    ∙ get_elem?-append_right (tone_row r t0) (tone_rows r (t0 + 1) n) (t * chains r + c)
    ∙ get_elem?-tone_rows r (t0 + 1) n t c (omega arith) hc
    ∙ ap (λ (k : ℕ). some (coeff r.iq (2 * (c * r.ntone + k)))) same

complex-eq-some :
    (r : CsiRecord) (m : List (ℤ × ℤ))
    → complex r ≡ some m
    → (length r.iq ≡ 2 * coeff_count r) × (coeff_count r ≢ 0) × (m ≡ tone_rows r 0 r.ntone)
unfolding complex
complex-eq-some r m e = ground arith

index_in_block : (n k c t : ℕ) → t < n → c < k → 2 * (c * n + t) + 1 < 2 * (n * k)
index_in_block n k c t ht hc = grind arith

-- The matrix, and each of its coefficients as the pair read at its place.
complex-coeff :
    (r : CsiRecord) (m : List (ℤ × ℤ)) (t c : ℕ)
    → complex r ≡ some m
    → t < r.ntone
    → c < chains r
    → (length m ≡ coeff_count r)
      × (2 * (c * r.ntone + t) + 1 < length r.iq)
      × (get_elem? m (t * chains r + c) ≡ some (coeff r.iq (2 * (c * r.ntone + t))))
complex-coeff r m t c e ht hc =
    let (len, ne, em) = complex-eq-some r m e in
    let count : coeff_count r ≡ r.ntone * chains r = unfold coeff_count in grind arith in
    let zero_add : 0 + t ≡ t = omega arith in
    (
      ap length em ∙ length-tone_rows r 0 r.ntone ∙ sym count,
      omega (arith, index_in_block r.ntone (chains r) c t ht hc),
      ap (λ l. get_elem? l (t * chains r + c)) em
          ∙ get_elem?-tone_rows r 0 r.ntone t c ht hc
          ∙ ap (λ (k : ℕ). some (coeff r.iq (2 * (c * r.ntone + k)))) zero_add,
    )

coeff_count-zero : (r : CsiRecord) → r.ntone ≡ 0 → coeff_count r ≡ 0
unfolding coeff_count
coeff_count-zero r e = rw e (omega arith)

chain-eq-some :
    (r : CsiRecord) (m : List (ℤ × ℤ)) (c : ℕ)
    → complex r ≡ some m
    → c < chains r
    → chain r c ≡ some (range_map (λ t. coeff r.iq (2 * (c * r.ntone + t))) 0 r.ntone)
unfolding chain
chain-eq-some r m c e hc =
    let (len, ne, _) = complex-eq-some r m e in
    let g1 : leb (chains r) c ≡ false = lt→leb (chains r) c hc in
    let g2 : (length r.iq == 2 * coeff_count r) ≡ true =
      (==_iff (length r.iq) (2 * coeff_count r)).1 len in
    let g3 : (r.ntone == 0) ≡ false = has_tones ne in rw g1 (rw g2 (rw g3))
  where
    has_tones : coeff_count r ≢ 0 → (r.ntone == 0) ≡ false
    has_tones ne = ground (arith, coeff_count-zero r)

-- Where the matrix exists, every chain below the number of chains has a response of one value a
-- tone, and it is that chain's column of the matrix.
pub chain-complex :
    (r : CsiRecord) (m : List (ℤ × ℤ)) (c : ℕ)
    → complex r ≡ some m
    → c < chains r
    → (col : List (ℤ × ℤ)) × (chain r c ≡ some col)
      × (length col ≡ r.ntone)
      × ((t : ℕ) → t < r.ntone → get_elem? col t ≡ get_elem? m (t * chains r + c))
chain-complex r m c e hc =
    let f = λ (t : ℕ). coeff r.iq (2 * (c * r.ntone + t)) in
    (
      range_map f 0 r.ntone,
      chain-eq-some r m c e hc,
      length-range_map f 0 r.ntone,
      λ t ht.
          get_elem?-range_map f 0 r.ntone t ht
          ∙ ap (λ (k : ℕ). some (f k)) (zero_add t)
          ∙ sym ((complex-coeff r m t c e ht hc).2),
    )
  where
    zero_add : (t : ℕ) → 0 + t ≡ t
    zero_add t = omega arith
