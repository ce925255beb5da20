-- ===== src/Orbio/Text.antt =====
-- `str.lower`, `zfill` and the address patterns of src/domain/blockchain.py, on ASCII text.
use Prim.Native.Char.{Char, code}
use Prim.Native.String.{char_at, count}
use kalyx_mao_engine.Base.{
  ℕ, zero, suc, ◌-◌, String, Bool, true, ◌&&◌, ◌||◌, ◌==◌, leb, starts_with, str_append,
  if◌then◌else◌,
}

abbrev lower_char : Char → Char
lower_char c =
    if leb 65 (code c) && leb (code c) 90
    then char_at "abcdefghijklmnopqrstuvwxyz" (code c - 65)
    else c

-- `s.lower()`
unfoldable pub lower : String → String
lower String.[] = String.[]
lower (String.◌∷◌ c s) = String.◌∷◌ (lower_char c) (lower s)

abbrev is_hex_char : Char → Bool
is_hex_char c =
    (leb 48 (code c) && leb (code c) 57)
    || (leb 97 (code c) && leb (code c) 102)
    || (leb 65 (code c) && leb (code c) 70)

unfoldable pub is_hex : String → Bool
is_hex String.[] = true
is_hex (String.◌∷◌ c s) = is_hex_char c && is_hex s

-- `s[n:]`
unfoldable pub drop_chars : ℕ → String → String
drop_chars zero s = s
drop_chars (suc n) String.[] = String.[]
drop_chars (suc n) (String.◌∷◌ c s) = drop_chars n s

-- `^0x[0-9a-fA-F]{n}$`
unfoldable pub is_hex_text : ℕ → String → Bool
is_hex_text n s = starts_with s "0x" && is_hex (drop_chars 2 s) && (count s == suc (suc n))

abbrev pub is_eth_address : String → Bool
is_eth_address = is_hex_text 40

abbrev pub is_bytes32 : String → Bool
is_bytes32 = is_hex_text 64

-- `s.zfill(n)` of text without a sign
unfoldable pub zeros : ℕ → String
zeros zero = ""
zeros (suc n) = str_append "0" (zeros n)

unfoldable pub zfill : ℕ → String → String
zfill n s = str_append (zeros (n - count s)) s
