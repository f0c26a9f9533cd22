-- ===== src/Csid/Caps/Validation.antt =====
-- What validate_radio of crates/csid/src/caps.rs lets through.
use csid.Csid.Caps.{
  Refusal, no_group, no_interface, no_monitor, not_on_band, Band, ghz24, ghz5, ghz6, WidthCfg, noht,
  ht20, ht40_minus, ht40_plus, w80, w160, w320, in_ch5, g5_80, g5_160, channel_to_freq, Outcome,
  done, refused, or_refuse, not_empty, RadioConfig, resolve_band, width_allowed, group_center,
  center_channel, center_in_band, needs_center, center_freq, validate_radio, ◌>>=◌, ◌>>◌,
}
use mathlib.Core.Path.{subst}
use csid.Prelude.{
  ℕ, ◌<◌, ◌≡◌, refl, sym, ◌≢◌, ◌↔◌, ◌⊎◌, true, false, Option, none, some, List, [], ◌∷◌, arith,
}

-- The widths that a channel of a band can be captured at.
abbrev pub IsAllowed : Band → ℕ → WidthCfg → Type 0
IsAllowed ghz24 channel width = needs_center width ≡ false
IsAllowed ghz5 channel w160 = (channel < 132) ⊎ (144 < channel)
IsAllowed ghz5 channel w320 = ⊥
IsAllowed ghz5 channel width = Unit
IsAllowed ghz6 channel w320 = ⊥
IsAllowed ghz6 channel width = Unit

-- Every channel on 5 GHz is in a group of 80 MHz.
group_80-total : (c : ℕ) → in_ch5 c ≡ true → group_center g5_80 c ≢ none
unfolding group_center in_ch5
group_80-total c h = ground arith

group_160_iff : (c : ℕ) → in_ch5 c ≡ true → (group_center g5_160 c ≢ none) ↔ ((c < 132) ⊎ (144 < c))
unfolding group_center in_ch5
group_160_iff c h = (λ ne. ground arith, λ apart. ground arith)

-- A group is needed, and then the step passes.
group_step :
    (g : Option ℕ) (e : Refusal) (k : Outcome (Unit {0}))
    → ((do center_ch ← or_refuse g e; freq ← center_in_band ghz5 center_ch; done (some freq)) >> k
        ≡ done tt)
      ↔ ((g ≢ none) × (k ≡ done tt))
unfolding center_in_band
group_step none e k = (λ h. cc, λ p. absurd (p.0 refl))
group_step (some m) e k = (λ h. (λ no. cc, h), λ p. p.1)

abbrev width_steps : Band → ℕ → WidthCfg → Outcome (Unit {0}) → Outcome (Unit {0})
width_steps band channel width k = do width_allowed band width; center_freq band channel width; k

-- The two steps that look at the width pass exactly for the widths allowed.
width_iff :
    (b : Band) (c f : ℕ) (w : WidthCfg) (k : Outcome (Unit {0}))
    → channel_to_freq b c ≡ some f
    → (width_steps b c w k ≡ done tt) ↔ (IsAllowed b c w × (k ≡ done tt))
unfolding width_allowed center_freq needs_center center_channel center_in_band channel_to_freq
width_iff ghz24 c f noht k h = (λ e. (refl, e), λ p. p.1)
width_iff ghz24 c f ht20 k h = (λ e. (refl, e), λ p. p.1)
width_iff ghz24 c f ht40_minus k h = (λ e. (refl, e), λ p. p.1)
width_iff ghz24 c f ht40_plus k h = (λ e. (refl, e), λ p. p.1)
width_iff ghz24 c f w80 k h = (λ e. cc, λ p. cc (p.0))
width_iff ghz24 c f w160 k h = (λ e. cc, λ p. cc (p.0))
width_iff ghz24 c f w320 k h = (λ e. cc, λ p. cc (p.0))
width_iff ghz5 c f w80 k h =
    let group = group_step (group_center g5_80 c) (no_group c w80) k in
    (λ e. (tt, (group.0 e).1), λ p. group.1 (group_80-total c (ground arith), p.1))
width_iff ghz5 c f w160 k h =
    let group = group_step (group_center g5_160 c) (no_group c w160) k in
    let apart = group_160_iff c (ground arith) in
    (λ e. (apart.0 (group.0 e).0, (group.0 e).1), λ p. group.1 (apart.1 p.0, p.1))
width_iff ghz5 c f w320 k h = (λ e. cc, λ p. absurd p.0)
width_iff ghz5 c f w k h = (λ e. (tt, e), λ p. p.1)
width_iff ghz6 c f w320 k h = (λ e. cc, λ p. absurd p.0)
width_iff ghz6 c f w k h = (λ e. (tt, e), λ p. p.1)

or_refuse-done {ℓ} :
    {A : Type ℓ} (o : Option A) (e : Refusal) (k : Outcome (Unit {0}))
    → ((or_refuse o e >> k) ≡ done tt) ↔ ((a : A) × (o ≡ some a) × (k ≡ done tt))
or_refuse-done none e k = (λ h. cc, λ p. cc (p.1))
or_refuse-done (some a) e k = (λ h. (a, refl, h), λ p. p.2)

names_iff :
    (xs ys : List ℕ)
    → ((not_empty xs no_interface >> not_empty ys no_monitor) ≡ done tt) ↔ ((xs ≢ []) × (ys ≢ []))
names_iff [] ys = (λ h. cc, λ p. absurd (p.0 refl))
names_iff (x ∷ xs) [] = (λ h. cc, λ p. absurd (p.1 refl))
names_iff (x ∷ xs) (y ∷ ys) = (λ h. (λ no. cc, λ no. cc), λ p. refl)

done-injective : {a b : Band} → ◌≡◌ {A = Outcome Band} (done a) (done b) → a ≡ b
done-injective e = cc

abbrev pub IsLegal : RadioConfig → Band → ℕ → Type 0
IsLegal radio b f =
    (channel_to_freq b radio.channel ≡ some f)
    × IsAllowed b radio.channel radio.width
    × (radio.interface ≢ [])
    × (radio.monitor ≢ [])

-- The validation behind the resolution of the band.
abbrev checks : RadioConfig → Band → Outcome (Unit {0})
checks radio band = do
  or_refuse (channel_to_freq band radio.channel) (not_on_band radio.channel band)
  width_allowed band radio.width
  center_freq band radio.channel radio.width
  not_empty radio.interface no_interface
  not_empty radio.monitor no_monitor

checks_iff :
    (radio : RadioConfig) (b : Band) → (checks radio b ≡ done tt) ↔ ((f : ℕ) × IsLegal radio b f)
checks_iff radio b =
    let names : Outcome (Unit {0}) =
      not_empty radio.interface no_interface >> not_empty radio.monitor no_monitor in
    let step =
      or_refuse-done (channel_to_freq b radio.channel) (not_on_band radio.channel b)
        (width_steps b radio.channel radio.width names) in
    let named = names_iff radio.interface radio.monitor in
    (
      λ h.
          let (f, e, rest) = step.0 h in
          let (allowed, last) = (width_iff b radio.channel f radio.width names e).0 rest in
          (f, (e, allowed, (named.0 last).0, (named.0 last).1)),
      λ p. step.1 (
        p.0,
        p.1.0,
        (width_iff b radio.channel p.0 radio.width names p.1.0).1 (p.1.1, named.1 (p.1.2, p.1.3)),
      ),
    )

resolved_iff :
    (radio : RadioConfig) (o : Outcome Band)
    → ((o >>= checks radio) ≡ done tt) ↔ ((b : Band) × (f : ℕ) × (o ≡ done b) × IsLegal radio b f)
resolved_iff radio (refused e) = (λ h. cc, λ p. cc (p.2))
resolved_iff radio (done b) = (
  λ h. let (f, legal) = (checks_iff radio b).0 h in (b, f, refl, legal),
  λ p.
      (checks_iff radio b).1
        (p.1, subst (λ (c : Band). IsLegal radio c p.1) (sym (done-injective p.2)) p.3),
)

-- A configuration passes exactly when its band is given or follows from its channel, the channel
-- is one of the band, its width is one allowed there, and both interfaces have a name.
pub validate_radio_iff :
    (radio : RadioConfig)
    → (validate_radio radio ≡ done tt)
      ↔ ((b : Band) × (f : ℕ) × (resolve_band radio ≡ done b) × IsLegal radio b f)
unfolding validate_radio
validate_radio_iff radio = resolved_iff radio (resolve_band radio)
