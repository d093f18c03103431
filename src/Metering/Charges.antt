-- ===== src/Metering/Charges.antt =====
-- crates/metering/lib.rs: what the charges in front of instructions add to a body.
use em.Base.{
  ℕ, suc, ◌+◌, Bool, true, false, ◌==◌, Option, none, some, List, [], ◌∷◌, ◌++◌, if◌then◌else◌, ◌≡◌,
  ◌≢◌, refl, ap, ◌∙◌, arith, ltb, ltb→lt, ◌&&◌, and_left, and_right,
}
use mathlib.Core.Option
use em.Base.Int.{ℤ, pos, negsuc}
use em.Base.Outcome.{ok, Yields, Yields-bind, Yields-then, Yields-ok}
use em.Metering.Types.{u32_mod}
use em.Metering.Operators.{Operator, Instruction}
use em.Metering.Operators.Mapping.{shift_index, map_operator}
use em.Metering.Code.{map_all, charge, meter}
use em.Metering.Indices.{called, callee, Shifts, map_operator-Shifts, shift_index-ne}

abbrev is_target : ℕ → Option ℕ → Bool
is_target gas none = false
is_target gas (some n) = n == gas

-- Whether an instruction calls a function.
abbrev pub calls : ℕ → Instruction → Bool
calls gas i = is_target gas (called i)

abbrev pub amount : Instruction → ℕ
amount (Instruction.i32_const (pos n)) = n
amount _ = 0

-- Reading from the end, a call of `consumeGas` takes the constant in front of it along: the flag says
-- that the next instruction is such a constant.
abbrev step : ℕ → Instruction → Bool × List Instruction × ℕ → Bool × List Instruction × ℕ
step gas i (flag, kept, total) =
    if calls gas i
    then (true, kept, total)
    else if flag
    then (false, kept, total + amount i)
    else (false, i ∷ kept, total)

abbrev pub scan : ℕ → List Instruction → Bool × List Instruction × ℕ
scan gas [] = (false, [], 0)
scan gas (i ∷ is) = step gas i (scan gas is)

-- The instructions that are not charges, and the sum that the charges pass to `consumeGas`.
abbrev pub stripped : ℕ → List Instruction → List Instruction
stripped gas is = (scan gas is).1

abbrev pub charged : ℕ → List Instruction → ℕ
charged gas is = (scan gas is).2

-- What is charged for an instruction.
abbrev pub cost_of : ℤ → ℕ
cost_of (pos n) = n
cost_of (negsuc n) = 0

abbrev pub total_cost : (Instruction → ℤ) → List Instruction → ℕ
total_cost cost_fn [] = 0
total_cost cost_fn (i ∷ is) = cost_of (cost_fn i) + total_cost cost_fn is

-- The functions that are called have a 32-bit index, the last one excepted.
abbrev pub target_fits : Option ℕ → Bool
target_fits none = true
target_fits (some n) = ltb (suc n) u32_mod

abbrev pub in_range : List Operator → Bool
in_range [] = true
in_range (op ∷ ops) = target_fits (callee op) && in_range ops

module _ (gas : ℕ) where
  scan-other :
      (i : Instruction) (is kept : List Instruction) (total : ℕ)
      → calls gas i ≡ false
      → scan gas is ≡ (false, kept, total)
      → scan gas (i ∷ is) ≡ (false, i ∷ kept, total)
  scan-other i is kept total h e = rw (h, e) refl

  pub ==_self : (gas == gas) ≡ true
  ==_self = ground arith

  scan-charge :
      (c : ℤ) (is kept : List Instruction) (total : ℕ)
      → scan gas is ≡ (false, kept, total)
      → scan gas (charge gas c ++ is) ≡ (false, kept, total + cost_of c)
  unfolding charge
  scan-charge (pos n) is kept total e = rw (e, ==_self) refl
  scan-charge (negsuc n) is kept total e = e ∙ ap (λ t. (false, kept, t)) (omega arith)

  -- An operator in range is not mapped to a call of `consumeGas`.
  not_gas :
      (i : Instruction) (o : Option ℕ)
      → called i ≡ Option.map (shift_index (some gas)) o
      → target_fits o ≡ true
      → calls gas i ≡ false
  not_gas i o h k = ap (is_target gas) h ∙ go o k
    where
      ne_false : (n : ℕ) → n ≢ gas → (n == gas) ≡ false
      ne_false n f = ground arith

      go :
          (o : Option ℕ)
          → target_fits o ≡ true
          → is_target gas (Option.map (shift_index (some gas)) o) ≡ false
      go none k = refl
      go (some n) k =
          ne_false (shift_index (some gas) n) (shift_index-ne gas n (ltb→lt (suc n) u32_mod k))

  pub mapped-not_gas :
      (op : Operator) (i : Instruction)
      → target_fits (callee op) ≡ true
      → map_operator (some gas) op ≡ ok i
      → calls gas i ≡ false
  mapped-not_gas op i h e =
      not_gas i (callee op)
        (Yields-ok (Shifts (some gas) op) _ (map_operator-Shifts (some gas) op) e) h

  module _ (cost_fn : Instruction → ℤ) where
    -- The metered operators are there, and reading them back gives the mapped operators and their cost.
    abbrev Metered : List Operator → List Instruction → Type 0
    Metered ops js =
        (is : List Instruction) × (meter cost_fn gas ops ≡ ok is)
        × (scan gas is ≡ (false, js, total_cost cost_fn js))

    meter-Metered :
        (ops : List Operator)
        → in_range ops ≡ true
        → Yields (Metered ops) (map_all (map_operator (some gas)) ops)
    unfolding meter map_all
    meter-Metered [] h = ([], refl, refl)
    meter-Metered (op ∷ ops) h =
        Yields-bind (Metered (op ∷ ops)) (map_operator (some gas) op) _ λ i ei.
          Yields-then (Metered (op ∷ ops)) (Metered ops) (map_all (map_operator (some gas)) ops) _
            (meter-Metered ops (and_right (target_fits (callee op)) (in_range ops) h))
            λ js (is, em, es). (
              charge gas (cost_fn i) ++ (i ∷ is),
              rw (ei, em) refl,
              scan-charge (cost_fn i) (i ∷ is) (i ∷ js) (total_cost cost_fn js) (
                    scan-other i is js (total_cost cost_fn js)
                      (mapped-not_gas op i (and_left (target_fits (callee op)) (in_range ops) h) ei)
                      es)
                  ∙ ap (λ t. (false, i ∷ js, t)) (omega arith),
            )

    -- If the operators of a body can be mapped and call indices below the last of 32 bits, the
    -- body is metered; without the charges the result is the mapped operators, and the charges
    -- add up to their cost, with none for a negative one.
    pub meter_lem :
        (ops : List Operator) (js : List Instruction)
        → in_range ops ≡ true
        → map_all (map_operator (some gas)) ops ≡ ok js
        → (is : List Instruction) × (meter cost_fn gas ops ≡ ok is)
          × (stripped gas is ≡ js)
          × (charged gas is ≡ total_cost cost_fn js)
    meter_lem ops js h e =
        let (is, em, es) =
          Yields-ok (Metered ops) (map_all (map_operator (some gas)) ops) (meter-Metered ops h) e in
        (is, em, ap (λ t. t.1) es, ap (λ t. t.2) es)
