-- ===== src/Metering/Errors.antt =====
-- crates/metering/lib.rs, `inject`: input that the parser does not read to its end.
use mathlib.Core.Path.{subst}
use em.Base.{Bool, ◌||◌, true, false, Option, none, some, List, [], ◌∷◌, ◌≡◌, ◌≢◌, refl, sym}
use em.Base.Int.{ℤ}
use em.Base.Outcome.{ok, ◌>>=◌, Yields, Yields-bind, Yields-then, Yields-ok}
use em.Metering.Operators.{Instruction}
use em.Metering.Sections.{Payload, Section}
use em.Metering.Inject.{Injector, initial, read_payload, read_payloads, inject}

abbrev is_end : Payload → Bool
is_end Payload.end = true
is_end _ = false

-- Whether the payload of the end comes, and every payload before it parses.
abbrev pub reaches_end : List (Option Payload) → Bool
reaches_end [] = false
reaches_end (none ∷ payloads) = false
reaches_end (some payload ∷ payloads) = is_end payload || reaches_end payloads

-- One turn of the loop, where it goes on, as a bound result.
read_payloads-some :
    (p : Payload) (ps : List (Option Payload)) (s : Injector)
    → is_end p ≡ false
    → read_payloads (some p ∷ ps) s ≡ (read_payload p s >>= λ s'. read_payloads ps s')
unfolding read_payloads
read_payloads-some Payload.end ps s h = cc
read_payloads-some _ ps s h = refl

-- The parts of an alternative that does not hold.
or_false : (a b : Bool) → (a || b) ≡ false → (a ≡ false) × (b ≡ false)
or_false true b h = (h, cc)
or_false false b h = (refl, h)

abbrev Never : Injector → Type 0
Never s = ⊥

-- Otherwise the loop has no result.
read_payloads-Never :
    (ps : List (Option Payload)) (s : Injector)
    → reaches_end ps ≡ false
    → Yields Never (read_payloads ps s)
unfolding read_payloads
read_payloads-Never [] s h = tt
read_payloads-Never (none ∷ ps) s h = tt
read_payloads-Never (some p ∷ ps) s h =
    let (f, g) = or_false (is_end p) (reaches_end ps) h in
    subst (Yields Never) (sym (read_payloads-some p ps s f)) (
      Yields-bind Never (read_payload p s) (λ s'. read_payloads ps s')
        λ s' e. read_payloads-Never ps s' g)

-- If a payload before the end does not parse, or the end never comes, inject gives no module.
pub inject-incomplete :
    (cost_fn : Instruction → ℤ) (ps : List (Option Payload)) (out : List Section)
    → reaches_end ps ≡ false
    → inject cost_fn ps ≢ ok out
unfolding inject
inject-incomplete cost_fn ps out h e =
    Yields-ok (λ o. ⊥) (inject cost_fn ps)
      (Yields-then (λ o. ⊥) Never (read_payloads ps initial) _ (read_payloads-Never ps initial h)
        λ s. elim [ ])
      e
