-- ===== src/Csiq/Stream.antt =====
-- The byte sources and sinks that the container and the raw reader are generic over
-- (`R: Read`, `W: Write`), as far as the code sees them.
use csid.Prelude.{ℕ, ◌+◌, ◌<◌, ◌≡◌, refl, Bool, true, Option, none, some, List, [], ◌++◌, arith}
use csid.Prelude.{
  leb, if◌then◌else◌, le→leb, length, take, drop, length-append, take-append, drop-append,
}
use csid.Csiq.Error.{IoErrorKind, unexpected_eof, other, io, Result, ok, err}

-- The bytes still to come, and what a read past the last of them answers: `unexpected_eof` at the
-- end of a file, another kind where the device fails.
pub record Source : Type 0 where
  pub bytes : List ℕ
  pub ending : IoErrorKind

-- `Read::read_exact` into a buffer of `n` bytes.
unfoldable pub read_exact : ℕ → Source → Result (List ℕ × Source)
read_exact n src =
    if leb n (length src.bytes)
    then ok (take n src.bytes, record src { bytes = drop n src.bytes })
    else err (io src.ending)

-- `io::copy` of at most `n` bytes into `io::sink()`: the end of the file is no error here.
unfoldable pub skip_bytes : ℕ → Source → Result Source
skip_bytes n src =
    if leb n (length src.bytes)
    then ok (record src { bytes = drop n src.bytes })
    else at_end src.ending
  where
    at_end : IoErrorKind → Result Source
    at_end unexpected_eof = ok (record src { bytes = [] })
    at_end (other k) = err (io (other k))

-- The bytes written, and how many the device takes before it fails; a `Vec<u8>` takes all.
pub record Sink : Type 0 where
  pub written : List ℕ
  pub room : Option ℕ

abbrev has_room : Option ℕ → ℕ → Bool
has_room none n = true
has_room (some r) n = leb n r

unfoldable pub write_all : List ℕ → Sink → Result Sink
write_all bs s =
    if has_room s.room (length s.written + length bs)
    then ok (record s { written = s.written ++ bs })
    else err (io (other 28))

-- A read of what a source begins with leaves the rest.
pub read_exact-append :
    (s rest : List ℕ) (e : IoErrorKind)
    → read_exact (length s) (record { bytes = s ++ rest; ending = e })
      ≡ ok (s, record { bytes = rest; ending = e })
unfolding read_exact
read_exact-append s rest e =
    let fits : leb (length s) (length (s ++ rest)) ≡ true =
      le→leb (length s) (length (s ++ rest)) (omega (arith, length-append s rest)) in
    rw (fits, take-append s rest, drop-append s rest)

pub read_exact_short :
    (n : ℕ) (src : Source) → length src.bytes < n → read_exact n src ≡ err (io src.ending)
unfolding read_exact
read_exact_short n src h = ground arith

pub write_all-Vec :
    (bs w : List ℕ)
    → write_all bs (record { written = w; room = none })
      ≡ ok (record { written = w ++ bs; room = none })
unfolding write_all
write_all-Vec bs w = refl
