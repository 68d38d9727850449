-- ===== src/Shell/Quote.antt =====
-- `shell_quote` and `join_shell_command` (device/rsdbd/src/main.rs).
use rsdb.Base.{ℕ, Bool, ◌&&◌, ◌||◌, List, [], ◌∷◌, ◌++◌, map, ◌==◌, leb, all, if◌then◌else◌}
use rsdb.Base.Texts.{Text, is_empty}

-- The bytes that need no quotes.
unfoldable pub is_safe : ℕ → Bool
is_safe byte =
    (leb b'a' byte && leb byte b'z')
    || (leb b'A' byte && leb byte b'Z')
    || (leb b'0' byte && leb byte b'9')
    || byte == b'_'
    || byte == b'-'
    || byte == b'.'
    || byte == b'/'
    || byte == b':'
    || byte == b'@'
    || byte == b'+'
    || byte == b'='

abbrev pub quote : ℕ
quote = 39

-- `value.replace('\'', "'\"'\"'")`
unfoldable pub replace_quotes : Text → Text
replace_quotes [] = []
replace_quotes (c ∷ value) =
    if c == quote
    then quote ∷ b'"' ∷ quote ∷ b'"' ∷ quote ∷ replace_quotes value
    else c ∷ replace_quotes value

unfoldable pub shell_quote : Text → Text
shell_quote value =
    if is_empty value
    then quote ∷ quote ∷ []
    else if all is_safe value
    then value
    else quote ∷ (replace_quotes value ++ (quote ∷ []))

-- `join(" ")`
abbrev pub join_spaced : List Text → Text
join_spaced [] = []
join_spaced (word ∷ []) = word
join_spaced (word ∷ next ∷ words) = word ++ (b' ' ∷ join_spaced (next ∷ words))

unfoldable pub join_shell_command : Text → List Text → Text
unfolding shell_quote
join_shell_command command args = join_spaced (map shell_quote (command ∷ args))
