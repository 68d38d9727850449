-- ===== src/Shell/Runs.antt =====
-- Concrete command lines, and the theorem about them at a concrete input.
use rsdb.Base.{◌≡◌, refl, none, [], ◌∷◌}
use rsdb.Base.Texts.{codes}
use rsdb.Shell.Quote.{join_shell_command, is_safe, replace_quotes}
use rsdb.Shell.Words.{shell_words, is_operator}

quoted :
    join_shell_command (codes "echo") (codes "a b" ∷ codes "it's" ∷ [] ∷ [])
    ≡ codes "echo 'a b' 'it'\"'\"'s' ''"
unfolding join_shell_command is_safe replace_quotes
quoted = refl

-- The line assigns `A` and runs `ls`.
assigned : shell_words (join_shell_command (codes "A=1") (codes "ls" ∷ [])) ≡ none
unfolding shell_words join_shell_command is_safe
assigned = refl

unquoted : shell_words (codes "echo $HOME") ≡ none
unfolding shell_words is_operator
unquoted = refl
