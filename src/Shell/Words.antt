-- ===== src/Shell/Words.antt =====
-- How a POSIX shell reads a line as one command, independently of the program: the words of the
-- command. `none` stands for a line in which the shell would do more than run a command with
-- arguments: expand, redirect, assign a variable, begin a compound command, run several commands or
-- wait for a closing quote.
use rsdb.Base.{
  ℕ, Bool, true, false, ◌&&◌, leb, ◌||◌, Option, none, some, List, [], ◌∷◌, ◌++◌, ◌==◌, any,
  if◌then◌else◌,
}
use rsdb.Base.Texts.{Text, codes, text_eq}
use rsdb.Shell.Quote.{quote}

pub data Mode : Type 0 where
  plain single double : Mode

-- What is no ordinary byte of a word outside quotes, the space and the two quotes apart.
unfoldable pub is_operator : ℕ → Bool
is_operator c = any (λ o. c == o) (codes "|&;<>()$`\\*?[]#~!{}^%" ++ (9 ∷ 10 ∷ 13 ∷ []))

-- What keeps a meaning inside double quotes.
abbrev pub is_expansion : ℕ → Bool
is_expansion c = c == b'$' || c == b'`' || c == b'\\'

-- The word that has been read so far, if one has begun.
abbrev pub flush : Option Text → List Text
flush none = []
flush (some word) = word ∷ []

abbrev pub begun : Option Text → Text
begun none = []
begun (some word) = word

abbrev pub add_word : Option Text → Option (List Text) → Option (List Text)
add_word word none = none
add_word word (some words) = some (flush word ++ words)

unfoldable pub split : Mode → Option Text → Text → Option (List Text)
split plain word [] = some (flush word)
split single word [] = none
split double word [] = none
split plain word (c ∷ line) =
    let blank = add_word word (split plain none line) in
    let to_single = split single (some (begun word)) line in
    let to_double = split double (some (begun word)) line in
    let on = split plain (some (begun word ++ (c ∷ []))) line in
    if c == b' '
    then blank
    else if c == quote
    then to_single
    else if c == b'"'
    then to_double
    else if is_operator c
    then none
    else on
split single word (c ∷ line) =
    let close = split plain word line in
    let on = split single (some (begun word ++ (c ∷ []))) line in if c == quote then close else on
split double word (c ∷ line) =
    let close = split plain word line in
    let on = split double (some (begun word ++ (c ∷ []))) line in
    if c == b'"' then close else if is_expansion c then none else on

-- A byte of a variable's name, but for a digit at its beginning.
abbrev is_name : Bool → ℕ → Bool
is_name inside byte =
    (leb b'a' byte && leb byte b'z')
    || (leb b'A' byte && leb byte b'Z')
    || byte == b'_'
    || (inside && leb b'0' byte && leb byte b'9')

-- Whether a line begins with a name and `=`, without quotes; the flag says whether the name has begun.
unfoldable pub assigns : Bool → Text → Bool
assigns inside [] = false
assigns inside (c ∷ line) =
    let on = assigns true line in
    if c == b'=' then inside else if is_name inside c then on else false

-- The bytes before the first blank.
unfoldable pub first_token : Text → Text
first_token [] = []
first_token (c ∷ line) = let rest = first_token line in if c == b' ' then [] else c ∷ rest

-- The words that begin or go on with a compound command where they are the first, without quotes:
-- those of POSIX that are letters only, and those of common shells.
abbrev reserved_words : List Text
reserved_words =
    codes "if"
    ∷ codes "then"
    ∷ codes "else"
    ∷ codes "elif"
    ∷ codes "fi"
    ∷ codes "do"
    ∷ codes "done"
    ∷ codes "case"
    ∷ codes "esac"
    ∷ codes "while"
    ∷ codes "until"
    ∷ codes "for"
    ∷ codes "in"
    ∷ codes "function"
    ∷ codes "select"
    ∷ codes "time"
    ∷ codes "coproc"
    ∷ []

unfoldable pub is_reserved : Text → Bool
is_reserved word = any (text_eq word) reserved_words

unfoldable pub shell_words : Text → Option (List Text)
unfolding split assigns first_token is_reserved
shell_words line =
    if assigns false line || is_reserved (first_token line) then none else split plain none line
