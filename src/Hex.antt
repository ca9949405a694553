-- ===== src/Hex.antt =====
-- `encoding/hex` as the program uses it. A text is the list of its ASCII codes.
pub mod Laws
use doge_lucky_mining.Common.{
  ℕ, ◌+◌, ◌-◌, ◌*◌, ◌/◌, ◌%◌, Bool, ◌&&◌, Option, none, some, List, [], ◌∷◌, ltb, leb,
  if◌then◌else◌,
}
use Prim.Native.String.{String}
use Prim.Native.Char.{code}
use doge_lucky_mining.Bytes.{Bytes}

abbrev pub Text : Type 0
Text = List ℕ

abbrev pub codes : String → Text
codes String.[] = []
codes (String.◌∷◌ c s) = code c ∷ codes s

unfoldable pub hex_digit : ℕ → ℕ
hex_digit d = if ltb d 10 then b'0' + d else b'a' + (d - 10)

-- `hex.EncodeToString`
unfoldable pub encode : Bytes → Text
encode [] = []
encode (b ∷ bs) = hex_digit (b / 16) ∷ hex_digit (b % 16) ∷ encode bs

unfoldable pub hex_value : ℕ → Option ℕ
hex_value c =
    if leb b'0' c && leb c b'9'
    then some (c - b'0')
    else if leb b'a' c && leb c b'f'
    then some (c - b'a' + 10)
    else if leb b'A' c && leb c b'F'
    then some (c - b'A' + 10)
    else none

byte_of : Option ℕ → Option ℕ → Option ℕ
byte_of (some hi) (some lo) = some (hi * 16 + lo)
byte_of _ _ = none

push : Option ℕ → Option Bytes → Option Bytes
push (some b) (some bs) = some (b ∷ bs)
push _ _ = none

-- `hex.DecodeString`: `none` is its error, for a character that is no hex digit or an odd length.
unfoldable pub decode : Text → Option Bytes
unfolding byte_of push
decode [] = some []
decode (c ∷ []) = none
decode (c ∷ d ∷ rest) = push (byte_of (hex_value c) (hex_value d)) (decode rest)
