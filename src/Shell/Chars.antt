-- ===== src/Shell/Chars.antt =====
-- The tests of <ctype.h> on ASCII that ps5/shellp.c calls, and the characters it looks for.
use cse.Base.{ℕ, Bool, ◌&&◌, ◌||◌, leb, ◌==◌}

abbrev pub is_space : ℕ → Bool
is_space c = c == 32 || (leb 9 c && leb c 13)

-- `isalnum(c) || ispunct(c)`: every printing character but the blank
abbrev pub is_name : ℕ → Bool
is_name c = leb 33 c && leb c 126

abbrev pub blank : ℕ
blank = 32

abbrev pub less : ℕ
less = b'<'

abbrev pub greater : ℕ
greater = b'>'

abbrev pub bar : ℕ
bar = b'|'

abbrev pub quote : ℕ
quote = 34

-- `IS_REDIR`
abbrev pub is_redir : ℕ → Bool
is_redir c = c == less || c == greater
