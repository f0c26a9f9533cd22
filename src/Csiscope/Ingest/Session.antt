-- ===== src/Csiscope/Ingest/Session.antt =====
-- A session of crates/csid's live stream as crates/csiscope/src/ingest.rs receives it.
use csid.Csiq.Error.{ok}
use csid.Csiq.Record.{CsiRecord, IsTyped, IsU64}
use csid.Csiq.Live.{encode, LiveDatagram, decode-encode}
use csid.Csiq.Tlv.RoundTrip.{restored}
use csid.Csiscope.Ingest.{
  Tracker, seq_gap, wraps_after, observe, Hub, push_hub, accept_observed, accept_decoded, accept,
}
use mathlib.Core.Path.{subst}
use csid.Prelude.{
  ℕ, ◌+◌, ◌*◌, ◌%◌, ◌^◌, ◌<◌, ◌≡◌, refl, sym, ap, ◌∙◌, true, false, some, List, [], ◌∷◌, arith,
}
use csid.Prelude.{◌==◌, ==_refl, length}

-- A datagram that arrives: when, and what its sender encoded.
pub record Sent : Type 0 where
  pub now : ℕ
  pub seq : ℕ
  pub body : CsiRecord

abbrev pub accept_all : ℕ → List Sent → Hub × Tracker → Hub × Tracker
accept_all uid [] s = s
accept_all uid (d ∷ ds) s = accept_all uid ds (accept d.now (encode uid d.seq d.body) s)

-- The sender's counter rises, with some datagrams lost.
abbrev pub IsSent : ℕ → List Sent → Type 0
IsSent prev [] = Unit {0}
IsSent prev (d ∷ ds) = (prev < d.seq) × (d.seq < 2 ^ 32) × IsTyped d.body × IsSent d.seq ds

abbrev pub last_seq_of : ℕ → List Sent → ℕ
last_seq_of prev [] = prev
last_seq_of prev (d ∷ ds) = last_seq_of d.seq ds

observe-same :
    (t : Tracker) (uid prev seq ftm : ℕ)
    → t.session_uid ≡ uid
    → t.last_seq ≡ some prev
    → let wraps = wraps_after t.ftm_last ftm t.ftm_wraps in
      observe t uid seq ftm ≡ record {
        tracker = record t { last_seq = some seq; ftm_last = some ftm; ftm_wraps = wraps };
        ticks = (wraps * 2 ^ 32 + ftm) % 2 ^ 64;
        gap = seq_gap (some prev) seq;
        changed = false;
      }
unfolding observe
observe-same t uid prev seq ftm same last =
    let known : (t.session_uid == uid) ≡ true = ap (λ (u : ℕ). u == uid) same ∙ ==_refl uid in
    rw (known, last)

seq_gap-next : (prev seq : ℕ) → prev < seq → seq < 2 ^ 32 → seq_gap (some prev) seq + prev + 1 ≡ seq
seq_gap-next prev seq h k = omega arith

abbrev pub IsNext : ℕ → ℕ → ℕ → Hub → Hub × Tracker → Type 0
IsNext uid prev seq hub after =
    (after.1.session_uid ≡ uid)
    × (after.1.last_seq ≡ some seq)
    × (after.0.counters.received ≡ hub.counters.received + 1)
    × (after.0.counters.decode_errors ≡ hub.counters.decode_errors)
    × (after.0.counters.session_changes ≡ hub.counters.session_changes)
    × (after.0.counters.sender_gaps + prev + 1 ≡ hub.counters.sender_gaps + seq)

accept_decoded-IsNext :
    (now n uid prev seq : ℕ) (body : CsiRecord) (hub : Hub) (t : Tracker)
    → prev < seq
    → seq < 2 ^ 32
    → t.session_uid ≡ uid
    → t.last_seq ≡ some prev
    → IsNext uid prev seq hub
        (accept_decoded now n (ok (record { session_uid = uid; seq = seq; body = body })) (hub, t))
unfolding accept_decoded accept_observed push_hub
accept_decoded-IsNext now n uid prev seq body hub t lt hs same last =
    let dg : LiveDatagram = record { session_uid = uid; seq = seq; body = body } in
    subst (λ seen. IsNext uid prev seq hub (accept_observed now n dg hub seen))
      (sym (observe-same t uid prev seq body.ftm same last))
      (same, refl, refl, refl, omega arith, omega (arith, seq_gap-next prev seq lt hs))

-- What `accept` does with the next datagram of a session.
pub accept-IsNext :
    (uid prev : ℕ) (d : Sent) (hub : Hub) (t : Tracker)
    → IsU64 uid
    → prev < d.seq
    → d.seq < 2 ^ 32
    → IsTyped d.body
    → t.session_uid ≡ uid
    → t.last_seq ≡ some prev
    → IsNext uid prev d.seq hub (accept d.now (encode uid d.seq d.body) (hub, t))
unfolding accept
accept-IsNext uid prev d hub t hu lt hs h same last =
    let bytes : List ℕ = encode uid d.seq d.body in
    subst (λ r. IsNext uid prev d.seq hub (accept_decoded d.now (length bytes) r (hub, t)))
      (sym (decode-encode uid d.seq d.body hu hs h))
      (accept_decoded-IsNext d.now (length bytes) uid prev d.seq (restored d.body) hub t lt hs same
        last)

-- Of a session whose counter rises, from a datagram on that was received, every datagram is counted
-- once: received, or lost before one that was received. None is an error, none starts a session.
pub accept_all-counts :
    (uid prev : ℕ) (ds : List Sent) (hub : Hub) (t : Tracker)
    → IsU64 uid
    → IsSent prev ds
    → t.session_uid ≡ uid
    → t.last_seq ≡ some prev
    → let before = hub.counters in
      let after = (accept_all uid ds (hub, t)).0.counters in
      (after.received ≡ before.received + length ds)
      × (after.decode_errors ≡ before.decode_errors)
      × (after.session_changes ≡ before.session_changes)
      × (after.sender_gaps + after.received + prev
          ≡ before.sender_gaps + before.received + last_seq_of prev ds)
accept_all-counts uid prev [] hub t hu hd same last = (omega arith, refl, refl, refl)
accept_all-counts uid prev (d ∷ ds) hub t hu (lt, hs, h, hd) same last =
    let next = accept-IsNext uid prev d hub t hu lt hs h same last in
    let after = accept d.now (encode uid d.seq d.body) (hub, t) in
    let later = accept_all-counts uid d.seq ds (after.0) (after.1) hu hd (next.0) (next.1) in
    (
      omega (arith, later.0, next.2),
      later.1 ∙ next.3,
      later.2 ∙ next.4,
      omega (arith, later.3, next.2, next.5),
    )
