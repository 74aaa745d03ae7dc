-- ===== src/Communication/Uart/Line.antt =====
-- `UartImpl::readline` of common/src/communication/serial/Uart.cpp, in its Linux build. The bytes
-- that the system delivers come in the chunks that `Wrapper_Read` returns; a read that returns
-- nothing, or an error, ends the list.
use common_lib.Common.{
  ℕ, suc, Bool, true, false, ◌&&◌, List, [], ◌∷◌, ◌++◌, length, take, get_or, if◌then◌else◌, ltb,
  ◌==◌,
}

pub data EscapeSequence : Type 0 where
  null_end line_feed carriage_return : EscapeSequence

-- `EndOfLine`.
unfoldable pub end_of_line : EscapeSequence → List ℕ
end_of_line null_end = 0 ∷ []
end_of_line line_feed = 10 ∷ []
end_of_line carriage_return = 13 ∷ 10 ∷ []

-- `endIdx` and `line`.
pub record Scan : Type 0 where
  pub end_idx : ℕ
  pub line : List ℕ

-- The body of the loop for one byte: whether the terminator is complete, so that `readline`
-- returns, and the variables.
unfoldable pub feed : List ℕ → ℕ → Scan → Bool × Scan
feed end ch s =
    if ltb s.end_idx (length end) && ch == get_or end s.end_idx 0
    then (suc s.end_idx == length end, record { end_idx = suc s.end_idx; line = s.line ++ ch ∷ [] })
    else (
      false,
      if ltb 0 s.end_idx
          then if ch == get_or end 0 0
            then record { end_idx = 1; line = s.line ++ take s.end_idx end }
            else record { end_idx = 0; line = (s.line ++ take s.end_idx end) ++ ch ∷ [] }
          else record { end_idx = 0; line = s.line ++ ch ∷ [] },
    )

-- The loop over a chunk: whether `readline` returns in it.
unfoldable pub scan : List ℕ → List ℕ → Scan → Bool × Scan
scan end [] s = (false, s)
scan end (ch ∷ chs) s =
    let (complete, s') = feed end ch s in
    let rest = scan end chs s' in if complete then (true, s') else rest

-- The line, and the chunks that are left for later calls.
unfoldable pub readline_from : List ℕ → List (List ℕ) → Scan → List ℕ × List (List ℕ)
readline_from end [] s = (s.line, [])
readline_from end (chunk ∷ chunks) s =
    let (found, s') = scan end chunk s in
    let rest = readline_from end chunks s' in if found then (s'.line, chunks) else rest

unfoldable pub readline : EscapeSequence → List (List ℕ) → List ℕ × List (List ℕ)
readline e chunks = readline_from (end_of_line e) chunks (record { end_idx = 0; line = [] })
