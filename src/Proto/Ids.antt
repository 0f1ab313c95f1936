-- ===== src/Proto/Ids.antt =====
-- The rule of the stable ids (crates/iem-engine-proto/src/ids.rs).
use Prim.Native.String.{String, len, [] as empty, ◌∷◌ as cons}
use Prim.Native.Char.{Char, code}
use iemmixer.Base.{ℕ, Bool, true, false, ◌&&◌, ◌||◌, leb, ◌==◌}

abbrev pub max_id_len : ℕ
max_id_len = 64

abbrev letter_or_digit : Char → Bool
letter_or_digit c = (leb 97 (code c) && leb (code c) 122) || (leb 48 (code c) && leb (code c) 57)

abbrev id_char : Char → Bool
id_char c = letter_or_digit c || (code c == 95 || (code c == 46 || code c == 45))

abbrev all_id_chars : String → Bool
all_id_chars empty = true
all_id_chars (cons c s) = id_char c && all_id_chars s

abbrev first_ok : String → Bool
first_ok empty = false
first_ok (cons c s) = letter_or_digit c

-- 1 to 64 bytes of `a-z`, `0-9`, `_`, `.`, `-`, starting with a letter or digit. A character that
-- is not ASCII has no byte of these.
unfoldable pub valid_id : String → Bool
valid_id s = first_ok s && (leb (len s) max_id_len && all_id_chars s)
