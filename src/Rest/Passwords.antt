-- ===== src/Rest/Passwords.antt =====
-- schemas/auth.py: the rules that a new password passes before it reaches the service.
use Prim.Native.Char.{Char, code}
use Prim.Native.String.{[] as empty, ◌∷◌ as push, count}
use awa_platform.Prelude.{ℕ, String, Bool, false, ◌&&◌, ◌||◌, leb, if◌then◌else◌}
use awa_platform.Exceptions.{Result, ok, raise, value_error}

-- `re.search` of a class of characters.
unfoldable pub has_char : (Char → Bool) → String → Bool
has_char p empty = false
has_char p (push c s) = p c || has_char p s

-- `[A-Za-z]`
abbrev pub is_letter : Char → Bool
is_letter c = (leb 65 (code c) && leb (code c) 90) || (leb 97 (code c) && leb (code c) 122)

abbrev pub password_min : ℕ
password_min = 8

abbrev pub password_max : ℕ
password_max = 72

-- `len` counts code points; `is_digit` is the class `\d`, which holds of every decimal digit of
-- Unicode.
unfoldable pub validate_password : (is_digit : Char → Bool) → String → Result String
validate_password is_digit value =
    if leb password_min (count value) && leb (count value) password_max
    then if has_char is_letter value && has_char is_digit value then ok value else raise value_error
    else raise value_error
