-- ===== src/Napi/Tests.antt =====
-- js/napi/src/lib.rs: the theorem at a small run.
use em.Base.{ℕ, Option, none, List, [], ◌∷◌, ◌≢◌}
use em.Base.Int.{ℤ}
use Prim.Native.String.{String}
use em.Evm.Primitives.Numbers.{numbers}
use em.Arweave.Gateway.{err}
use em.Arweave.Http.{Network}
use em.Arweave.Tests.{Table, list_lru, empty}
use em.Executor.Raw.{ExecuteResult}
use em.Executor.Sort.{Ordering}
use em.Executor.Tests.{Memory, shared_world}
use em.Napi.{SimulateInput, napi_simulate_contract, napi_execute_contract}
use em.Napi.Result.{napi-ne}

-- A network that answers nothing.
abbrev silent : Network
silent = record {
  request = λ address. none;
  post = λ address sort variables. none;
  transaction = λ body. none;
  bundled_contract = λ body. none;
  block_indep_hash = λ body. none;
  block = λ body. none;
  height = λ body. none;
  transactions = λ body. none;
}

abbrev port_text : ℤ → String
port_text _ = "443"

abbrev compare_texts : String → String → Ordering
compare_texts a b = Ordering.equal

abbrev parse : String → Option ℕ
parse _ = none

abbrev call_one : List (SimulateInput String)
call_one =
    record {
      id = "one";
      owner = "caller";
      quantity = "1";
      reward = "2";
      target = none;
      tags = [];
      block = none;
      input = "input";
    }
    ∷ []

abbrev shared : Memory
shared = record { results = []; cached = empty }

napi-ne_example :
    (napi_simulate_contract shared_world
        (list_lru (ExecuteResult String (Table String)))
        compare_texts
        10
        port_text
        silent
        parse
        "contract"
        call_one
        none
        none
        none
        none
        shared
      ≢ err)
    × (napi_execute_contract shared_world
          (list_lru (ExecuteResult String (Table String)))
          compare_texts
          10
          port_text
          silent
          "contract"
          none
          none
          shared
        ≢ err)
napi-ne_example =
    napi-ne shared_world (list_lru (ExecuteResult String (Table String))) compare_texts 10 port_text
      silent parse "contract" call_one none none none none shared none shared
