-- ===== src/Executor/FileOps/Bytes.antt =====
-- executor/file_ops.go: what its operations do to texts, as bytes, with the functions of package
-- strings that they call.
use vectrify_agent_runner.Base.{
  ℕ, zero, suc, ◌+◌, ◌-◌, ◌/◌, ◌%◌, ◌==◌, Bool, false, ◌&&◌, Option, none, some, List, [], ◌∷◌,
  ◌++◌, Text, codes, text_eq, if◌then◌else◌, ltb, leb, length, take, drop, newline, split,
  has_prefix, ℤ, pos, negsuc,
}

-- strings.ReplaceAll(s, "\r\n", "\n")
unfoldable pub normalize : Text → Text
normalize [] = []
normalize (c ∷ []) = c ∷ []
normalize (c ∷ d ∷ cs) =
    let pair = newline ∷ normalize cs in
    let one = c ∷ normalize (d ∷ cs) in if c == 13 && d == newline then pair else one

-- The rounds of strings.Count: occurrences that do not overlap, the first ones first. After one of
-- them as many bytes are skipped as it has.
unfoldable pub count_skip : ℕ → Text → Text → ℕ
count_skip k sub [] = 0
count_skip (suc k) sub (c ∷ cs) = count_skip k sub cs
count_skip zero sub (c ∷ cs) =
    let found = 1 + count_skip (length sub - 1) sub cs in
    let other = count_skip zero sub cs in if has_prefix (c ∷ cs) sub then found else other

-- strings.Count. For an empty `sub` it is one more than the number of characters; bytes stand for
-- them here, which no test of the source tells apart.
unfoldable pub count : Text → Text → ℕ
unfolding count_skip
count [] s = length s + 1
count (o ∷ os) s = count_skip 0 (o ∷ os) s

-- strings.Replace(s, old, new, 1)
unfoldable pub replace_first : Text → Text → Text → Text
replace_first old new [] = if text_eq old [] then new else []
replace_first old new (c ∷ cs) =
    let rest = replace_first old new cs in
    if has_prefix (c ∷ cs) old then new ++ drop (length old) (c ∷ cs) else c ∷ rest

-- strings.HasSuffix(s, "\n")
unfoldable pub ends_with_newline : Text → Bool
ends_with_newline [] = false
ends_with_newline (c ∷ []) = c == newline
ends_with_newline (c ∷ d ∷ cs) = ends_with_newline (d ∷ cs)

-- The lines without an empty one at the end.
unfoldable pub drop_last_empty : List Text → List Text
drop_last_empty [] = []
drop_last_empty (l ∷ []) = if text_eq l [] then [] else l ∷ []
drop_last_empty (l ∷ m ∷ ls) = l ∷ drop_last_empty (m ∷ ls)

unfoldable pub lines_of : Text → List Text
unfolding drop_last_empty
lines_of bytes = drop_last_empty (split newline (normalize bytes))

-- The decimal digits of a number, in front of `rest`; the fuel is more than the number.
unfoldable pub digits : ℕ → ℕ → Text → Text
digits zero n rest = rest
digits (suc fuel) n rest =
    let more = digits fuel (n / 10) ((48 + n % 10) ∷ rest) in
    if ltb n 10 then (48 + n) ∷ rest else more

unfoldable pub decimal : ℕ → Text
unfolding digits
decimal n = digits (suc n) n []

-- `fmt.Fprintf(&sb, "%d: %s\n", i+1, lines[i])` over lines from the index `i` on.
unfoldable pub numbered : ℕ → List Text → Text
unfolding decimal
numbered i [] = []
numbered i (l ∷ ls) = decimal (i + 1) ++ codes ": " ++ l ++ newline ∷ numbered (i + 1) ls

unfoldable pub range_start : ℤ → ℕ
range_start (pos n) = n - 1
range_start (negsuc n) = 0

unfoldable pub range_end : ℕ → ℤ → ℕ
range_end len (pos n) = if ltb 0 n && ltb n len then n else len
range_end len (negsuc n) = len

-- The loop of `readFileLines`; `none` is its error on the start line.
unfoldable pub view : List Text → Option (ℤ × ℤ) → Option Text
unfolding numbered range_start range_end
view lines none = some (numbered 0 lines)
view lines (some (first, last)) =
    let start = range_start first in
    let end = range_end (length lines) last in
    if leb (length lines) start
    then none
    else some (numbered start (take (end - start) (drop start lines)))

abbrev pub max_bytes : ℕ
max_bytes = 500000

unfoldable pub clip : Text → Text
clip text =
    if ltb max_bytes (length text)
    then take max_bytes text ++ newline ∷ codes "<response clipped>"
    else text
