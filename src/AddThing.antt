-- ===== src/AddThing.antt =====
-- The form that adds a thing (web/src/components/layout/AddThingForm.vue): its two checks, which are
-- regular expressions over characters, and what is asked of the server. The rest of the library's
-- check of the form is an argument.
pub mod Laws
mod Tests
use Prim.Native.Char.{Char, code}
use Prim.Native.String
use tio.Common.{ℕ, Bool, true, false, ◌&&◌, ◌||◌, String, leb, nat_eq, ◌==◌, if◌then◌else◌}
use tio.Store.{AppState}
use tio.Things.{add_thing}

pub record Form : Type 0 where
  pub thing_id : String
  pub password : String

abbrev between : (first last : ℕ) → Char → Bool
between first last c = leb first (code c) && leb (code c) last

-- `[A-Za-z0-9`
abbrev pub is_alphanumeric : Char → Bool
is_alphanumeric c = between b'A' b'Z' c || between b'a' b'z' c || between b'0' b'9' c

abbrev is : ℕ → Char → Bool
is n c = nat_eq (code c) n

-- `[A-Za-z0-9-_]`
abbrev pub is_id_char : Char → Bool
is_id_char c = is_alphanumeric c || is b'-' c || is b'_' c

-- `[A-Za-z0-9_~!@#$%^&*()-+./]`; in it `)-+` is the range from `)` to `+`.
abbrev pub is_password_char : Char → Bool
is_password_char c =
    is_alphanumeric c
    || is b'_' c
    || is b'~' c
    || is b'!' c
    || is b'@' c
    || is b'#' c
    || is b'$' c
    || is b'%' c
    || is b'^' c
    || is b'&' c
    || is b'*' c
    || is b'(' c
    || between b')' b'+' c
    || is b'.' c
    || is b'/' c

-- The test of `/^…+$/`, for a text that is not empty: all characters are of the class.
abbrev pub all_chars : (Char → Bool) → String → Bool
all_chars p String.[] = true
all_chars p (String.◌∷◌ c s) = p c && all_chars p s

-- The validators; an empty text passes them.
abbrev pub is_thing_id_valid : String → Bool
is_thing_id_valid value = if value == "" then true else all_chars is_id_char value

abbrev pub is_password_valid : String → Bool
is_password_valid value = if value == "" then true else all_chars is_password_char value

-- `handleConfirm`, by what the library's check and the server answer; the last part says whether the
-- form is closed.
abbrev pub handle_confirm :
    {T S : Type 0} → (valid accepted : Bool) → AppState T S → AppState T S × Bool
handle_confirm valid accepted st =
    if valid then (let r = add_thing accepted st in (r.0, r.1)) else (st, false)
