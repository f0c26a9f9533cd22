-- ===== src/Csiq/Error.antt =====
-- crates/csiq/src/error.rs: the errors of the codec and of the raw-stream parser, and the `?` that
-- passes them on. An I/O error is reduced to its kind, and a JSON error to the fact of it.
use csid.Prelude.{ℕ, ◌≡◌, refl, Option, none, some, List}
use Prim.Native.String.{String}

pub data IoErrorKind : Type 0 where
  unexpected_eof : IoErrorKind
  other : ℕ → IoErrorKind

pub data CsiqError : Type 0 where
  io : IoErrorKind → CsiqError
  bad_magic : List ℕ → List ℕ → CsiqError
  unsupported_version : ℕ → CsiqError
  malformed : String → CsiqError
  session : CsiqError

-- `stuck` is no value of the code: a loop of the model ran out of fuel.
pub data Result {ℓ} (A : Type ℓ) : Type ℓ where
  ok : A → Result A
  err : CsiqError → Result A
  stuck : Result A

-- `?`, and the sequence of two fallible steps.
infixl 5 ◌>>=◌ ◌>>◌
abbrev pub ◌>>=◌ {ℓ κ} : {A : Type ℓ} {B : Type κ} → Result A → (A → Result B) → Result B
ok a >>= f = f a
err e >>= f = err e
stuck >>= f = stuck

abbrev pub ◌>>◌ {ℓ} : {B : Type ℓ} → Result (Unit {0}) → Result B → Result B
m >> k = m >>= λ _. k

-- `ok_or`.
abbrev pub ok_or {ℓ} : {A : Type ℓ} → Option A → CsiqError → Result A
ok_or none e = err e
ok_or (some a) e = ok a

pub >>=_assoc {ℓ κ μ} :
    {A : Type ℓ} {B : Type κ} {C : Type μ} (m : Result A) (f : A → Result B) (g : B → Result C)
    → ((m >>= f) >>= g) ≡ (m >>= λ a. f a >>= g)
>>=_assoc (ok a) f g = refl
>>=_assoc (err e) f g = refl
>>=_assoc stuck f g = refl

-- Inversion of a step that succeeded, for use in the middle of a proof: its value is a variable.
pub bind_elim {ℓ κ μ} :
    {A : Type ℓ} {B : Type κ} {P : Type μ} (m : Result A) (f : A → Result B) {b : B}
    → (m >>= f) ≡ ok b
    → ((a : A) → m ≡ ok a → f a ≡ ok b → P)
    → P
bind_elim (ok a) f h k = k a refl h
bind_elim (err e) f h k = cc
bind_elim stuck f h k = cc

pub ok-injective {ℓ} : {A : Type ℓ} {a b : A} → ◌≡◌ {A = Result A} (ok a) (ok b) → a ≡ b
ok-injective e = cc
