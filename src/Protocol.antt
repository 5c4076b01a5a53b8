-- ===== src/Protocol.antt =====
-- protocol/messages.go: the messages of both directions, and how fields of a command are read.
use vectrify_agent_runner.Base.{Bool, false, Option, some, List, Text, codes, lookup, ℤ, pos}

-- A value of a decoded command. A number stands for the integer that Go's conversion makes of the
-- float64; of the lists only those of two values are told apart.
pub data Value : Type 0 where
  text : Text → Value
  boolean : Bool → Value
  number : ℤ → Value
  pair : Value → Value → Value
  other_value : Value

-- `RawCommand`
abbrev pub RawCommand : Type 0
RawCommand = List (Text × Value)

str_of : Option Value → Text
str_of (some (text s)) = s
str_of v = codes ""

-- `str`, of the value under a key.
unfoldable pub str : RawCommand → Text → Text
unfolding str_of
str raw key = str_of (lookup key raw)

bool_of : Option Value → Bool
bool_of (some (boolean b)) = b
bool_of v = false

-- `Bool`, of the value under a key.
unfoldable pub get_bool : RawCommand → Text → Bool
unfolding bool_of
get_bool raw key = bool_of (lookup key raw)

-- `Int` and `Int64`; an int has 64 bits here.
unfoldable pub int_of : Option Value → ℤ
int_of (some (number n)) = n
int_of v = pos 0

unfoldable pub get_int : RawCommand → Text → ℤ
unfolding int_of
get_int raw key = int_of (lookup key raw)

unfoldable pub cmd_id : RawCommand → Text
unfolding str
cmd_id raw = str raw (codes "cmd_id")

unfoldable pub cmd_type : RawCommand → Text
unfolding str
cmd_type raw = str raw (codes "type")

-- `ResultMsg`, `StreamMsg`, `DoneMsg` and `ErrorMsg`, each with the identifier of its command.
pub data Message : Type 0 where
  result_msg : Text → Bool → Text → Text → Message
  stream_msg : Text → Text → Text → Message
  done_msg : Text → Bool → ℤ → Message
  error_msg : Text → Text → Message
