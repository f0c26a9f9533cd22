-- ===== src/Csid/Source/Replies.antt =====
-- The replies that crates/csid/src/source.rs waits for when it opens the socket.
use csid.Csid.Source.{nlmsg_error, nlmsg_done, build_message, accepted, parse_single_message}
use csid.Csid.Source.Events.{at_len, at_type, at_payload, length-framed}
use csid.Prelude.{ℕ, ◌+◌, ◌^◌, ◌≤◌, ◌<◌, min, ◌≡◌, refl, false, List, ◌++◌, arith}
use csid.Prelude.{◌==◌, le→ltb, length}

-- A reply that is neither an error nor the end of a dump is read as its attributes.
pub parse_single_message-build_message :
    (ty flags seq cmd : ℕ) (payload tail : List ℕ)
    → ty < 2 ^ 16
    → 4 ≤ ty
    → 20 + length payload < 2 ^ 32
    → parse_single_message (build_message ty flags seq cmd payload ++ tail) ≡ accepted payload
unfolding parse_single_message
parse_single_message-build_message ty flags seq cmd payload tail ht other hp =
    let buf = build_message ty flags seq cmd payload ++ tail in
    let total = length-framed ty flags seq cmd payload tail in
    let whole : min (20 + length payload) (length buf) ≡ 20 + length payload =
      omega (arith, total) in
    let no_error : (ty == nlmsg_error) ≡ false = ground arith in
    let no_done : (ty == nlmsg_done) ≡ false = ground arith in
    rw
      (
        le→ltb (length buf) 16 (omega (arith, total)),
        at_len ty flags seq cmd payload tail hp,
        at_type ty flags seq cmd payload tail ht,
        whole,
        no_error,
        no_done,
        le→ltb (20 + length payload) 20 (omega arith),
        at_payload ty flags seq cmd payload tail,
      )
      refl
