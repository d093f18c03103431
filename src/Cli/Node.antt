-- ===== src/Cli/Node.antt =====
-- crates/cli/utils.rs and node.rs: the length of a message as four bytes, the frame that is sent, and
-- what is kept of the answer.
use em.Base.Bytes.{to_le_bytes, from_le_bytes, from_le_bytes-cast}
use em.Base.{
  ℕ, ◌+◌, ◌-◌, ◌*◌, ◌%◌, ◌^◌, ◌<◌, Bool, true, false, List, [], ◌∷◌, ◌++◌, length, take, drop,
  replicate, if◌then◌else◌, ◌==◌, ◌≡◌, refl, ap, ◌∙◌, arith, length-append, take-append,
  length-replicate, ltb, leb, ◌&&◌, and_left, and_right,
}

-- `u32::to_le_bytes` and `u32::from_le_bytes`.
unfoldable pub usize_to_u8_array : ℕ → List ℕ
usize_to_u8_array num = to_le_bytes num

unfoldable pub u8_array_to_usize : List ℕ → ℕ
u8_array_to_usize bytes = from_le_bytes bytes

-- The message that `send_message` writes; the length is cast to `u32`.
unfoldable pub frame : List ℕ → List ℕ
unfolding usize_to_u8_array
frame message = usize_to_u8_array (length message % 2 ^ 32) ++ (message ++ (0x69 ∷ []))

-- The answer is read in chunks of at most 1024 bytes; a read of none ends it. The buffer is kept whole.
abbrev buffer : List ℕ → List ℕ
buffer chunk = chunk ++ replicate (1024 - length chunk) 0

unfoldable pub read_result : List (List ℕ) → List ℕ
read_result [] = []
read_result (chunk ∷ chunks) =
    let rest = read_result chunks in if length chunk == 0 then [] else buffer chunk ++ rest

-- The frame of a message of fewer than 2^32 bytes starts with four bytes that decode to the
-- message's length, has the message behind them, and is five bytes longer.
pub frame_lem :
    (message : List ℕ)
    → length message < 2 ^ 32
    → (u8_array_to_usize (take 4 (frame message)) ≡ length message)
      × (take (length message) (drop 4 (frame message)) ≡ message)
      × (length (frame message) ≡ length message + 5)
unfolding frame u8_array_to_usize usize_to_u8_array
frame_lem message h = (
  from_le_bytes-cast (length message) h,
  take-append message (0x69 ∷ []),
  omega (arith, length-append message (0x69 ∷ [])),
)

-- Reads that are neither empty nor longer than the buffer.
abbrev pub partial_reads : List (List ℕ) → Bool
partial_reads [] = true
partial_reads (c ∷ cs) = (ltb 0 (length c) && leb (length c) 1024) && partial_reads cs

length-buffer :
    (c : List ℕ)
    → (ltb 0 (length c) && leb (length c) 1024) ≡ true
    → (length (buffer c) ≡ 1024) × ((length c == 0) ≡ false)
length-buffer c h = (
  at_most (length c) (length (buffer c)) h (
      length-append c (replicate (1024 - length c) 0)
      ∙ ap (λ n. length c + n) (length-replicate {A = ℕ} (1024 - length c) 0)),
  above (length c) h,
)
  where
    at_most : (n l : ℕ) → (ltb 0 n && leb n 1024) ≡ true → l ≡ n + (1024 - n) → l ≡ 1024
    at_most n l h e = ground arith

    above : (n : ℕ) → (ltb 0 n && leb n 1024) ≡ true → (n == 0) ≡ false
    above n h = ground arith

-- Of each read of an answer, where none is empty or longer than the buffer, 1024 bytes are
-- kept, however few were read.
pub length-read_result :
    (chunks : List (List ℕ))
    → partial_reads chunks ≡ true
    → length (read_result chunks) ≡ 1024 * length chunks
unfolding read_result
length-read_result [] h = refl
length-read_result (c ∷ cs) h =
    let (full, some_byte) =
      length-buffer c (and_left (ltb 0 (length c) && leb (length c) 1024) (partial_reads cs) h) in
    let rest =
      length-read_result cs
        (and_right (ltb 0 (length c) && leb (length c) 1024) (partial_reads cs) h) in
    rw some_byte (omega (arith, length-append (buffer c) (read_result cs), full, rest))
