-- ===== src/Conf.antt =====
-- conf/conf.go, names.go and buffer.go: settings, a Go map from strings to strings.
-- `strconv` is a parameter. A signed integer is given by its bit pattern of 64 bits.
use Prim.Native.Char.{code}
use Prim.Native.String.{String}
use df.Prelude.{ℕ, ◌*◌, List, [], ◌∷◌, Option, none, some}
use df.Io.{Result, ok, err, panic}
use df.SyncMap.{load, store}

-- The bytes of a text of ASCII characters.
abbrev pub codes : String → List ℕ
codes String.[] = []
codes (String.◌∷◌ c s) = code c ∷ codes s

abbrev pub framer_psk : List ℕ
framer_psk = codes "framer_psk"

abbrev pub framer_timestamp : List ℕ
framer_timestamp = codes "framer_timestamp"

abbrev pub framer_role : List ℕ
framer_role = codes "framer_role"

abbrev pub server_url : List ℕ
server_url = codes "server_url"

abbrev pub default_buffer_size : ℕ
default_buffer_size = 1024 * 64

abbrev pub Values : Type 0
Values = List (List ℕ × List ℕ)

abbrev pub or_empty : Option (List ℕ) → List ℕ
or_empty none = []
or_empty (some val) = val

-- `Get` gives the empty string for a name without a value.
unfoldable pub get : Values → List ℕ → List ℕ
get v name = or_empty (load name v)

unfoldable pub set_value : Values → List ℕ → List ℕ → Values
set_value v name value = store name value v

-- The loop of `Clone`, in the order of the list.
unfoldable pub clone_into : Values → Values → Values
clone_into d [] = d
clone_into d ((name, val) ∷ v) = clone_into (store name val d) v

unfoldable pub clone : Values → Values
unfolding clone_into
clone v = clone_into [] v

-- `strconv.Atoi` and `strconv.ParseInt(_, 10, 64)`, and `fmt.Sprintf("%d", _)`.
pub record Strconv : Type 0 where
  pub atoi : List ℕ → Result ℕ
  pub parse_int : List ℕ → Result ℕ
  pub format_int : ℕ → List ℕ

abbrev pub or_zero : Result ℕ → ℕ
or_zero (ok iv) = iv
or_zero (err e) = 0
or_zero panic = 0

abbrev pub int_of : (List ℕ → Result ℕ) → Option (List ℕ) → ℕ
int_of parse none = 0
int_of parse (some val) = or_zero (parse val)

unfoldable pub get_int : Strconv → Values → List ℕ → ℕ
get_int conv v name = int_of conv.atoi (load name v)

unfoldable pub get_int64 : Strconv → Values → List ℕ → ℕ
get_int64 conv v name = int_of conv.parse_int (load name v)
