-- ===== src/Packets.antt =====
-- static/addons/packet-selection/packet-selection.js: the dialog that selects packets of a file.
mod Tests
pub mod RoundTrip
use fprime_gds.Base.{
  ◌>>=◌, none, some, [], ◌∷◌, ◌++◌, List, ℕ, suc, Option, Bool, if◌then◌else◌, ◌==◌, ltb, leb, ◌&&◌,
  map, true, false,
}
use fprime_gds.Base.Text.{Text, codes, join}
use fprime_gds.Base.Decimal.{trim, digits_value}
use fprime_gds.Json.Digits.{is_digit}

-- The text of the input, and the error below it.
pub record PacketSelection : Type 0 where
  pub packet_input : Text
  pub error : Text

-- value.split(",")
pub split_commas : Text → List Text
split_commas [] = [] ∷ []
split_commas (c ∷ cs) =
    let parts = split_commas cs in
    if c == b',' then [] ∷ parts else elim parts [ [] ↦ (c ∷ []) ∷ [] | p ∷ ps ↦ (c ∷ p) ∷ ps ]

-- tokens.map(token => token.trim()).filter(Boolean)
trimmed : List Text → List Text
unfolding trim
trimmed [] = []
trimmed (t ∷ ts) = let rest = trimmed ts in elim (trim t) [ [] ↦ rest | c ∷ cs ↦ (c ∷ cs) ∷ rest ]

tokens_of : Text → List Text
unfolding split_commas trimmed
tokens_of [] = []
tokens_of (c ∷ cs) = trimmed (split_commas (c ∷ cs))

all_digits : Text → Bool
unfolding is_digit
all_digits [] = true
all_digits (c ∷ cs) = is_digit c && all_digits cs

-- /^[1-9]\d*$/
is_packet_number : Text → Bool
unfolding all_digits is_digit
is_packet_number [] = false
is_packet_number (c ∷ cs) = (is_digit c && ltb b'0' c) && all_digits cs

-- `nearest` is the number that is nearest to an integer, and `print` is String of it.
module _ (nearest : ℕ → ℕ) (print : ℕ → Text) where
  -- parseInt(t, 10) of a packet number; `none` stands for NaN.
  packet_of : Text → Option ℕ
  unfolding is_packet_number digits_value
  packet_of t = if is_packet_number t then (do n ← digits_value 10 0 t; some (nearest n)) else none

  -- The map and the test of every token.
  packets_of : List Text → Option (List ℕ)
  unfolding packet_of
  packets_of [] = some []
  packets_of (t ∷ ts) = do
    n ← packet_of t
    ns ← packets_of ts
    if ltb 0 n then some (n ∷ ns) else none

  with_error : Option (List ℕ) → PacketSelection → PacketSelection × Option (List ℕ)
  with_error none s =
      (record s { error = codes "Specify packet numbers as comma-separated list" }, none)
  with_error (some ns) s = (record s { error = [] }, some ns)

  pub validate : PacketSelection → PacketSelection × Option (List ℕ)
  unfolding packets_of tokens_of with_error trim
  validate s = with_error (packets_of (tokens_of (trim s.packet_input))) s

  -- save: what is emitted as "packets-selected", if anything is.
  pub save : PacketSelection → PacketSelection × Option (List ℕ)
  unfolding validate
  save s = validate s

  -- mounted; `packets` are those of the selected file.
  pub mounted : List ℕ → PacketSelection → PacketSelection
  unfolding join
  mounted packets s = record s { packet_input = join (codes ", ") (map print packets) }
