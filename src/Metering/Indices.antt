-- ===== src/Metering/Indices.antt =====
-- crates/metering/lib.rs: the indices of functions, before and behind the import of `consumeGas`.
use em.Base.{
  ℕ, zero, suc, ◌<◌, Option, none, some, List, [], ◌∷◌, ◌++◌, length, get_elem?, leb, if◌then◌else◌,
  ◌≡◌, ◌≢◌, refl, ap, ◌∙◌, arith,
}
use mathlib.Core.Option
use em.Base.Outcome.{ok, Yields, Yields-bind, Yields-ok}
use em.Metering.Types.{u32_mod, map_type, map_block_type}
use em.Metering.Operators.{Operator, Instruction}
use em.Metering.Operators.Mapping.{shift_index, map_operator}

-- An index is not shifted below the import, and by one from it on.
pub shift_index_lem :
    (n i : ℕ) → suc i < u32_mod → shift_index (some n) i ≡ (if leb n i then suc i else i)
unfolding shift_index
shift_index_lem n i h = ground arith

-- No function of the input has the index of `consumeGas`.
pub shift_index-ne : (n i : ℕ) → suc i < u32_mod → shift_index (some n) i ≢ n
shift_index-ne n i h e = ground (arith, shift_index_lem n i h)

module _ {ℓ} {A : Type ℓ} where
  get_elem?-insert :
      (xs : List A) (g : A) (ys : List A) (i : ℕ)
      → get_elem? (xs ++ (g ∷ ys)) (if leb (length xs) i then suc i else i) ≡ get_elem? (xs ++ ys) i
  get_elem?-insert [] g ys i = ground arith
  get_elem?-insert (x ∷ xs) g ys zero = ground arith
  get_elem?-insert (x ∷ xs) g ys (suc i) = ground (arith, get_elem?-insert xs g ys i)

  -- The shifted index finds in the new list what the index finds in the old one.
  pub get_elem?-shift_index :
      (xs : List A) (g : A) (ys : List A) (i : ℕ)
      → suc i < u32_mod
      → get_elem? (xs ++ (g ∷ ys)) (shift_index (some (length xs)) i) ≡ get_elem? (xs ++ ys) i
  get_elem?-shift_index xs g ys i h =
      ap (get_elem? (xs ++ (g ∷ ys))) (shift_index_lem (length xs) i h) ∙ get_elem?-insert xs g ys i

-- The function that an operator, or an instruction, calls.
abbrev pub callee : Operator → Option ℕ
callee (Operator.call i) = some i
callee _ = none

abbrev pub called : Instruction → Option ℕ
called (Instruction.call i) = some i
called _ = none

module _ (gas_idx : Option ℕ) where
  -- The target of a call is shifted, and nothing else becomes a call.
  abbrev pub Shifts : Operator → Instruction → Type 0
  Shifts op i = called i ≡ Option.map (shift_index gas_idx) (callee op)

  pub map_operator-Shifts : (op : Operator) → Yields (Shifts op) (map_operator gas_idx op)
  unfolding map_operator
  map_operator-Shifts (Operator.block t) = Yields-bind _ (map_block_type t) _ λ b e. refl
  map_operator-Shifts (Operator.loop t) = Yields-bind _ (map_block_type t) _ λ b e. refl
  map_operator-Shifts (Operator.if_block t) = Yields-bind _ (map_block_type t) _ λ b e. refl
  map_operator-Shifts (Operator.try t) = Yields-bind _ (map_block_type t) _ λ b e. refl
  map_operator-Shifts (Operator.typed_select t) = Yields-bind _ (map_type t) _ λ v e. refl
  map_operator-Shifts (Operator.ref_null t) = Yields-bind _ (map_type t) _ λ v e. refl
  map_operator-Shifts (Operator.br_table none d) = tt
  map_operator-Shifts (Operator.br_table (some ts) d) = refl
  map_operator-Shifts Operator.unmapped = tt
  map_operator-Shifts _ = refl

-- The function that an index stands for, where there is one.
abbrev pub resolve {ℓ} : {A : Type ℓ} → List A → Option ℕ → Option A
resolve functions none = none
resolve functions (some i) = get_elem? functions i

-- Where consumeGas comes between the imported and the defined functions, and the index of a
-- call is below the last of 32 bits, the call that map_operator gives calls the function that
-- the operator calls.
pub map_operator-resolve {ℓ} :
    {A : Type ℓ} (imported : List A) (gas : A) (defined : List A) (op : Operator) (i : Instruction)
    → ((n : ℕ) → callee op ≡ some n → suc n < u32_mod)
    → map_operator (some (length imported)) op ≡ ok i
    → resolve (imported ++ (gas ∷ defined)) (called i) ≡ resolve (imported ++ defined) (callee op)
map_operator-resolve imported gas defined op i fits h =
    ap (resolve (imported ++ (gas ∷ defined))) (
      Yields-ok (Shifts (some (length imported)) op) (map_operator (some (length imported)) op)
        (map_operator-Shifts (some (length imported)) op) h)
    ∙ go (callee op) fits
  where
    go :
        (o : Option ℕ)
        → ((n : ℕ) → o ≡ some n → suc n < u32_mod)
        → resolve
            (imported ++ (gas ∷ defined))
            (Option.map (shift_index (some (length imported))) o)
          ≡ resolve (imported ++ defined) o
    go none f = refl
    go (some n) f = get_elem?-shift_index imported gas defined n (f n refl)
