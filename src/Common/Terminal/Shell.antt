-- ===== src/Common/Terminal/Shell.antt =====
-- quote_shell, cmdline and toggle of terminal.hpp.
pub mod Words
use uni.Prelude.{ℕ, Bool, true, false, ◌||◌, List, [], ◌∷◌, ◌++◌, is_empty, if◌then◌else◌, ◌==◌}
use uni.Common.Text.{Bytes, codes, iequals}

abbrev pub is_special : ℕ → Bool
is_special c =
    c == b' '
    || c == b'\t'
    || c == b'('
    || c == b')'
    || c == b'['
    || c == b']'
    || c == b'*'
    || c == b'\\'
    || c == b'"'

unfoldable pub needs_quote : Bytes → Bool
needs_quote [] = false
needs_quote (c ∷ s) = is_special c || needs_quote s

unfoldable pub escape : Bytes → Bytes
escape [] = []
escape (c ∷ s) =
    let rest = escape s in
    if c == b'\\' then b'\\' ∷ b'\\' ∷ rest else if c == b'"' then b'\\' ∷ b'"' ∷ rest else c ∷ rest

unfoldable pub quote_shell : Bytes → Bytes
quote_shell s = if needs_quote s then b'"' ∷ (escape s ++ b'"' ∷ []) else s

-- The loop over the arguments after the first.
unfoldable pub cmdline_from : Bytes → List Bytes → Bytes
cmdline_from result [] = result
cmdline_from result (argument ∷ others) =
    cmdline_from ((result ++ b' ' ∷ []) ++ quote_shell argument) others

unfoldable pub cmdline : List Bytes → Bytes
cmdline [] = []
cmdline (argument ∷ others) = cmdline_from (quote_shell argument) others

unfoldable pub toggle : Bytes → Bool → Bool
toggle str default_value =
    if is_empty str
    then default_value
    else if iequals str (codes "no") || iequals str (codes "false") || iequals str (codes "0")
    then false
    else if iequals str (codes "yes") || iequals str (codes "true") || iequals str (codes "1")
    then true
    else default_value
