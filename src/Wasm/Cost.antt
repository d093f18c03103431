-- ===== src/Wasm/Cost.antt =====
-- crates/wasm/lib.rs: the import `consumeGas` and the global `COST`, a 32-bit integer, kept as its bits.
use em.Base.{
  ℕ, ◌+◌, ◌-◌, ◌^◌, ◌%◌, ◌<◌, ltb, true, false, and_left, and_right, some, List, [], ◌∷◌, ◌++◌,
  if◌then◌else◌, ◌≡◌, refl, ap, ◌∙◌, arith,
}
use em.Base.Int.{ℤ, pos, negsuc}
use em.Base.Outcome.{ok, Yields, Yields-bind, Yields-then, Yields-ok}
use em.Metering.Operators.{Operator, Instruction}
use em.Metering.Operators.Mapping.{map_operator}
use em.Metering.Code.{map_all, charge, meter}
use em.Metering.Indices.{callee}
use em.Metering.Charges.{
  calls, amount, cost_of, total_cost, in_range, target_fits, mapped-not_gas, ==_self,
}
use em.Wasm.Runtime.{Instance}

module _ {G : Type 0} where
  -- `cost + inc`, which wraps around.
  unfoldable pub consume_gas : ℕ → Instance G → Instance G
  consume_gas inc i = record i { cost = (i.cost + inc) % 2 ^ 32 }

  -- `cost as usize`: the sign is extended to 64 bits.
  unfoldable pub get_cost : Instance G → ℕ
  get_cost i = if ltb i.cost (2 ^ 31) then i.cost else i.cost + (2 ^ 64 - 2 ^ 32)

  -- The calls of `consumeGas` in a body without branches. The argument of a call is the constant in
  -- front of it, which is kept in `top`.
  abbrev pub run_line : ℕ → ℕ → List Instruction → Instance G → Instance G
  run_line gas top [] i = i
  run_line gas top (x ∷ xs) i =
      let rest = run_line gas (amount x) xs in
      if calls gas x then rest (consume_gas top i) else rest i

module _ (G : Type 0) (gas : ℕ) (cost_fn : Instruction → ℤ) where
  -- What a body costs, from any instance.
  abbrev Costs : List Instruction → ℕ → Type 0
  Costs is total =
      (top : ℕ) (i : Instance G)
      → i.cost < 2 ^ 32
      → (run_line gas top is i).cost ≡ (i.cost + total) % 2 ^ 32

  Costs-other :
      (x : Instruction) (is : List Instruction) (total : ℕ)
      → calls gas x ≡ false
      → Costs is total
      → Costs (x ∷ is) total
  Costs-other x is total h k = λ top i b. rw h (k (amount x) i b)

  Costs-charge :
      (c : ℤ) (is : List Instruction) (total : ℕ)
      → Costs is total
      → Costs (charge gas c ++ is) (cost_of c + total)
  unfolding charge consume_gas
  Costs-charge (pos n) is total k =
      λ top i b. rw (==_self gas) (k 0 (consume_gas n i) (omega arith) ∙ wrap i.cost n total)
    where
      wrap : (c n t : ℕ) → ((c + n) % 2 ^ 32 + t) % 2 ^ 32 ≡ (c + (n + t)) % 2 ^ 32
      wrap c n t = omega arith
  Costs-charge (negsuc n) is total k =
      λ top i b. k top i b ∙ ap (λ t. (i.cost + t) % 2 ^ 32) (omega arith)

  abbrev Ran : List Operator → List Instruction → Type 0
  Ran ops js =
      (is : List Instruction) × (meter cost_fn gas ops ≡ ok is) × Costs is (total_cost cost_fn js)

  meter-Ran :
      (ops : List Operator)
      → in_range ops ≡ true
      → Yields (Ran ops) (map_all (map_operator (some gas)) ops)
  unfolding meter map_all
  meter-Ran [] h = ([], refl, λ top i b. omega arith)
  meter-Ran (op ∷ ops) h = Yields-bind (Ran (op ∷ ops)) (map_operator (some gas) op) _ λ i ei.
      Yields-then (Ran (op ∷ ops)) (Ran ops) (map_all (map_operator (some gas)) ops) _
        (meter-Ran ops (and_right (target_fits (callee op)) (in_range ops) h))
        λ js (is, em, k). (
          charge gas (cost_fn i) ++ (i ∷ is),
          rw (ei, em) refl,
          Costs-charge (cost_fn i) (i ∷ is) (total_cost cost_fn js) (
              Costs-other i is (total_cost cost_fn js)
                (mapped-not_gas gas op i (and_left (target_fits (callee op)) (in_range ops) h) ei)
                k),
        )

  signed :
      (c t : ℕ) → t < 2 ^ 31 → c ≡ t → (if ltb c (2 ^ 31) then c else c + (2 ^ 64 - 2 ^ 32)) ≡ t
  signed c t h e = ground arith

  from_zero : (c t : ℕ) → c ≡ 0 → t < 2 ^ 31 → (c + t) % 2 ^ 32 ≡ t
  from_zero c t z b = omega arith

  -- For a body without branches whose cost is below 2^31 and whose operators can be mapped in
  -- range, the calls of consumeGas in the metered body leave get_cost at the cost of the body,
  -- from a cost of zero.
  pub get_cost-meter :
      (ops : List Operator) (js : List Instruction) (i : Instance G)
      → in_range ops ≡ true
      → map_all (map_operator (some gas)) ops ≡ ok js
      → i.cost ≡ 0
      → total_cost cost_fn js < 2 ^ 31
      → (is : List Instruction) × (meter cost_fn gas ops ≡ ok is)
        × (get_cost (run_line gas 0 is i) ≡ total_cost cost_fn js)
  unfolding get_cost
  get_cost-meter ops js i h e z b =
      let (is, em, k) =
        Yields-ok (Ran ops) (map_all (map_operator (some gas)) ops) (meter-Ran ops h) e in
      (
        is,
        em,
        signed (run_line gas 0 is i).cost (total_cost cost_fn js) b
            (k 0 i (omega arith) ∙ from_zero i.cost (total_cost cost_fn js) z b),
      )
