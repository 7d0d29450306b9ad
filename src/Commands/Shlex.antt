-- ===== src/Commands/Shlex.antt =====
-- `shlex.split` of Python's standard library, in its POSIX mode with no comments, as
-- homelink/commands/permissions.py calls it.
pub mod Words
use homelink.Common.Text.{is_empty, Text}
use homelink.Common.{
  ℕ, Bool, true, false, not, ◌&&◌, ◌||◌, List, [], ◌∷◌, ◌++◌, ◌==◌, if◌then◌else◌, drop,
}
use homelink.Common.Exc.{Result, ok, raise, value_error, after}

-- Where the scanner stands. A backslash goes back to a word or into double quotes.
pub data Mode : Type 0 where
  space word quoted double escaped double_escaped : Mode

abbrev pub is_space : ℕ → Bool
is_space c = c == b' ' || (c == 9 || (c == 10 || c == 13))

abbrev pub single_quote : ℕ
single_quote = 39

abbrev pub double_quote : ℕ
double_quote = 34

abbrev pub backslash : ℕ
backslash = 92

-- What a character does to the mode, outside quotes.
abbrev pub open_mode : ℕ → Mode
open_mode c =
    if c == single_quote
    then quoted
    else if c == double_quote
    then double
    else if c == backslash
    then escaped
    else word

abbrev pub is_plain : ℕ → Bool
is_plain c = elim (open_mode c) [ word ↦ not (is_space c) | _ ↦ false ]

-- The token that ends here, if there is one.
abbrev pub emit : Text → Bool → List Text
emit token q = if is_empty token && not q then [] else token ∷ []

-- The characters are scanned with the token so far, and whether a part of it was quoted: an
-- empty token counts only then.
unfoldable pub scan : Mode → Text → Bool → Text → Result (List Text)
scan space token q [] = ok []
scan space token q (c ∷ s) =
    let plain = scan word (c ∷ []) false s in
    let skip = scan space [] false s in
    let single = scan quoted [] true s in
    let dbl = scan double [] true s in
    let esc = scan escaped [] false s in
    if is_space c
    then skip
    else elim (open_mode c) [ quoted ↦ single | double ↦ dbl | escaped ↦ esc | _ ↦ plain ]
scan word token q [] = ok (emit token q)
scan word token q (c ∷ s) =
    let plain = scan word (token ++ c ∷ []) q s in
    let ends = scan space [] false s in
    let single = scan quoted token true s in
    let dbl = scan double token true s in
    let esc = scan escaped token q s in
    if is_space c
    then after (λ rest. ok (emit token q ++ rest)) ends
    else elim (open_mode c) [ quoted ↦ single | double ↦ dbl | escaped ↦ esc | _ ↦ plain ]
scan quoted token q [] = raise value_error
scan quoted token q (c ∷ s) =
    let closed = scan word token true s in
    let more = scan quoted (token ++ c ∷ []) true s in if c == single_quote then closed else more
scan double token q [] = raise value_error
scan double token q (c ∷ s) =
    let closed = scan word token true s in
    let esc = scan double_escaped token true s in
    let more = scan double (token ++ c ∷ []) true s in
    if c == double_quote then closed else if c == backslash then esc else more
scan escaped token q [] = raise value_error
scan escaped token q (c ∷ s) = scan word (token ++ c ∷ []) q s
scan double_escaped token q [] = raise value_error
scan double_escaped token q (c ∷ s) =
    let drop = scan double (token ++ c ∷ []) true s in
    let keep = scan double (token ++ backslash ∷ c ∷ []) true s in
    if c == backslash || c == double_quote then drop else keep

-- `shlex.split(command)`
unfoldable pub split : Text → Result (List Text)
unfolding scan
split command = scan space [] false command
