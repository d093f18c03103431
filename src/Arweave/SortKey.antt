-- ===== src/Arweave/SortKey.antt =====
-- crates/arweave/miscellaneous.rs, `get_sort_key`: the key by which interactions are sorted.
use em.Base.{
  ℕ, zero, suc, ◌-◌, ◌/◌, ◌%◌, ◌==◌, Option, List, [], ◌∷◌, ◌++◌, if◌then◌else◌, min, length, drop,
}
use mathlib.Core.Option
use Prim.Native.String
use Prim.Native.String.{String}
use em.Arweave.Codecs.{Codecs}

-- The decimal digits of a number, in front of `acc`; a number has fewer digits than its successor.
unfoldable pub digits : ℕ → ℕ → List ℕ → List ℕ
digits zero n acc = acc
digits (suc fuel) n acc =
    let rest = digits fuel (n / 10) (n % 10 ∷ acc) in if n / 10 == 0 then n % 10 ∷ acc else rest

unfoldable pub digit_text : ℕ → String
digit_text d =
    if d == 0
    then "0"
    else if d == 1
    then "1"
    else if d == 2
    then "2"
    else if d == 3
    then "3"
    else if d == 4
    then "4"
    else if d == 5
    then "5"
    else if d == 6
    then "6"
    else if d == 7
    then "7"
    else if d == 8
    then "8"
    else "9"

unfoldable pub digits_text : List ℕ → String
unfolding digit_text
digits_text [] = ""
digits_text (d ∷ ds) = String.◌++◌ (digit_text d) (digits_text ds)

-- The last twelve characters, or all, of six zeros and the height.
unfoldable pub padded_height : ℕ → List ℕ
unfolding digits
padded_height block_height =
    let height = (0 ∷ 0 ∷ 0 ∷ 0 ∷ 0 ∷ 0 ∷ []) ++ digits (suc block_height) block_height [] in
    drop (length height - min (length height) 12) height

-- `none` is the panic on an id that is not Base64.
unfoldable pub get_sort_key : Codecs → ℕ → String → String → Option String
unfolding padded_height digits_text
get_sort_key c block_height block_id transaction_id =
    Option.bind (c.decode_url block_id) λ hasher_bytes.
      Option.map
        (λ tx_id.
          String.◌++◌ (digits_text (padded_height block_height))
            (String.◌++◌ "," (c.hex_sha256 (hasher_bytes ++ tx_id))))
        (c.decode_url transaction_id)
