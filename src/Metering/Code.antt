-- ===== src/Metering/Code.antt =====
-- crates/metering/lib.rs, `inject`: the code, export, element and start sections.
use em.Base.{ℕ, Option, none, some, List, [], ◌∷◌, ◌++◌}
use em.Base.Int.{ℤ, pos, negsuc}
use Prim.Native.String.{String}
use em.Base.Outcome.{Outcome, ok, err, panicked, ◌>>=◌}
use em.Metering.Types.{ParserType, ValType, map_type}
use em.Metering.Operators.{Operator, Instruction}
use em.Metering.Operators.Mapping.{map_operator, shift_index}
use em.Metering.Sections.{
  Body, Function, ExternalKind, Export, ElementItem, ElementKind, Element, ElementMode,
  ElementSegment,
}

-- `?`, and `unwrap`.
abbrev pub try {ℓ} : {A : Type ℓ} → Option A → Outcome A
try none = err
try (some a) = ok a

abbrev pub unwrap {ℓ} : {A : Type ℓ} → Option A → Outcome A
unwrap none = panicked
unwrap (some a) = ok a

-- `collect::<Result<Vec<_>>>`, and a loop that pushes what it makes of each item.
unfoldable pub collect {ℓ} : {A : Type ℓ} → List (Option A) → Outcome (List A)
collect [] = ok []
collect (none ∷ xs) = err
collect (some a ∷ xs) = do rest ← collect xs; ok (a ∷ rest)

unfoldable pub map_all {ℓ κ} :
    {A : Type ℓ} {B : Type κ} → (A → Outcome B) → List A → Outcome (List B)
map_all f [] = ok []
map_all f (a ∷ xs) = do b ← f a; rest ← map_all f xs; ok (b ∷ rest)

unfoldable pub map_local : ℕ × ParserType → Outcome (ℕ × ValType)
map_local (i, t) = do v ← map_type t; ok (i, v)

-- No charge for a negative cost.
unfoldable pub charge : ℕ → ℤ → List Instruction
charge gas (pos cost) = Instruction.i32_const (pos cost) ∷ Instruction.call gas ∷ []
charge gas (negsuc _) = []

module _ (cost_fn : Instruction → ℤ) (func_idx : ℕ) where
  -- The loop over the operators of a body.
  unfoldable pub meter : List Operator → Outcome (List Instruction)
  unfolding charge
  meter [] = ok []
  meter (op ∷ ops) = do
    instruction ← map_operator (some func_idx) op
    rest ← meter ops
    ok (charge func_idx (cost_fn instruction) ++ (instruction ∷ rest))

  abbrev locals_of : Option (List (Option (ℕ × ParserType))) → Outcome (List (ℕ × ParserType))
  locals_of none = ok []
  locals_of (some locals) = collect locals

  unfoldable pub meter_body : Body → Outcome Function
  unfolding collect map_all map_local meter
  meter_body body = do
    parsed ← locals_of body.locals
    locals ← map_all map_local parsed
    reader ← try body.operators
    operators ← collect reader
    instructions ← meter operators
    ok (record { locals = locals; instructions = instructions })

  -- The bodies are read one by one.
  unfoldable pub meter_bodies : List (Option Body) → Outcome (List Function)
  unfolding meter_body
  meter_bodies [] = ok []
  meter_bodies (body ∷ bodies) = do
    b ← try body
    function ← meter_body b
    rest ← meter_bodies bodies
    ok (function ∷ rest)

unfoldable pub map_export : ℕ → ExternalKind → ℕ → Outcome Export
map_export func_idx ExternalKind.function idx =
    ok (Export.function (shift_index (some func_idx) idx))
map_export func_idx ExternalKind.table idx = ok (Export.table idx)
map_export func_idx ExternalKind.memory idx = ok (Export.memory idx)
map_export func_idx ExternalKind.tag idx = ok (Export.tag idx)
map_export func_idx ExternalKind.global idx = ok (Export.global idx)
map_export func_idx ExternalKind.type_kind idx = panicked
map_export func_idx ExternalKind.module_kind idx = ok (Export.module_kind idx)
map_export func_idx ExternalKind.instance_kind idx = ok (Export.instance_kind idx)

unfoldable pub map_exports :
    ℕ → List (Option (String × ExternalKind × ℕ)) → Outcome (List (String × Export))
unfolding map_export
map_exports func_idx [] = ok []
map_exports func_idx (none ∷ es) = err
map_exports func_idx (some (field, kind, idx) ∷ es) = do
  e ← map_export func_idx kind idx
  rest ← map_exports func_idx es
  ok ((field, e) ∷ rest)

-- An item that does not parse panics, and so does one that is an expression.
unfoldable pub element_functions : ℕ → List (Option ElementItem) → Outcome (List ℕ)
element_functions func_idx [] = ok []
element_functions func_idx (none ∷ items) = panicked
element_functions func_idx (some ElementItem.expr ∷ items) = panicked
element_functions func_idx (some (ElementItem.func idx) ∷ items) = do
  rest ← element_functions func_idx items
  ok (shift_index (some func_idx) idx ∷ rest)

unfoldable pub element_mode : ℕ → ElementKind → Outcome ElementMode
element_mode func_idx ElementKind.passive = ok ElementMode.passive
element_mode func_idx ElementKind.declared = ok ElementMode.declared
element_mode func_idx (ElementKind.active table_index init_expr) = do
  op ← try init_expr
  offset ← map_operator (some func_idx) op
  ok (ElementMode.active table_index offset)

unfoldable pub map_elements : ℕ → List (Option Element) → Outcome (List ElementSegment)
unfolding element_functions element_mode
map_elements func_idx [] = ok []
map_elements func_idx (element ∷ elements) = do
  e ← try element
  element_type ← map_type e.ty
  items ← unwrap e.items
  funcs ← element_functions func_idx items
  mode ← element_mode func_idx e.kind
  rest ← map_elements func_idx elements
  ok (record { mode = mode; element_type = element_type; functions = funcs } ∷ rest)
