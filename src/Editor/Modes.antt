-- ===== src/Editor/Modes.antt =====
-- The order of the views, and the button that goes round it.
use april_profile_kilo.Base.{Bool, false, length, suc, true, zero, ℕ, ◌≡◌, ◌≢◌, refl}
use april_profile_kilo.Editor.{Mode, Panels, form, mode_order, next_mode, schema, source, tree}

abbrev pub times : ℕ → (Mode → Mode) → Mode → Mode
times zero f m = m
times (suc n) f m = times n f (f m)

-- The mode is one of those that the toolbar offers.
abbrev pub IsOffered : Panels → Mode → Type 0
IsOffered p form = p.with_form ≡ true
IsOffered p schema = p.with_schema ≡ true
IsOffered p _ = Unit

abbrev panels : Bool → Bool → Panels
panels f s = record { with_form = f; with_schema = s }

closes_for :
    (f s : Bool) (m : Mode)
    → IsOffered (panels f s) m
    → (times (length (mode_order (panels f s))) (next_mode (panels f s)) m ≡ m)
      × (next_mode (panels f s) m ≢ m)
      × IsOffered (panels f s) (next_mode (panels f s) m)
unfolding mode_order next_mode
closes_for true true form h = (refl, λ e. cc, tt)
closes_for true true tree h = (refl, λ e. cc, tt)
closes_for true true source h = (refl, λ e. cc, refl)
closes_for true true schema h = (refl, λ e. cc, refl)
closes_for true false form h = (refl, λ e. cc, tt)
closes_for true false tree h = (refl, λ e. cc, tt)
closes_for true false source h = (refl, λ e. cc, refl)
closes_for false true tree h = (refl, λ e. cc, tt)
closes_for false true source h = (refl, λ e. cc, refl)
closes_for false true schema h = (refl, λ e. cc, tt)
closes_for false false tree h = (refl, λ e. cc, tt)
closes_for false false source h = (refl, λ e. cc, tt)
closes_for true false schema h = cc
closes_for false true form h = cc
closes_for false false form h = cc
closes_for false false schema h = cc

-- As many presses of the button as there are views come back to the view that one started from,
-- and one press always leads to another view that is offered.
pub cycle_closes :
    (p : Panels) (m : Mode)
    → IsOffered p m
    → (times (length (mode_order p)) (next_mode p) m ≡ m)
      × (next_mode p m ≢ m)
      × IsOffered p (next_mode p m)
cycle_closes p m h = closes_for p.with_form p.with_schema m h
