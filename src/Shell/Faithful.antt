-- ===== src/Shell/Faithful.antt =====
-- The shell reads back the command and its arguments.
use mathlib.Core.List.{append_assoc, append-nil}
use rsdb.Base.{
  if◌then◌else◌, ℕ, zero, suc, ◌<◌, Bool, true, false, not, ◌&&◌, ◌||◌, Option, none, some, List,
  [], ◌∷◌, ◌++◌, ◌==◌, ◌≡◌, refl, ap, ◌∙◌, sym, arith,
}
use rsdb.Base.{all, Bool-cases, inl, inr, ==_iff}
use native.Mathlib.Decide.{dec_lt}
use rsdb.Base.Texts.{Text, is_empty}
use rsdb.Shell.Quote.{is_safe, quote, replace_quotes, shell_quote}
use rsdb.Shell.Words.{plain, single, is_operator, split, begun, assigns, is_reserved}

-- A test that passes on every code below a bound, found by running it on each.
passes : (ℕ → Bool) → ℕ → Bool
passes test zero = true
passes test (suc code) = if test code then passes test code else false

passes_at :
    (test : ℕ → Bool) (bound code : ℕ) → code < bound → passes test bound ≡ true → test code ≡ true
unfolding passes
passes_at test zero code below p = elim below [ ]
passes_at test (suc bound) code below p = elim (Bool-cases (test bound)) [
  | inl h ↦ elim (dec_lt code bound) [
    | yes less ↦ passes_at test bound code less (rw h at p)
    | no same ↦ let e : code ≡ bound = omega arith in rw e h
  ]
  | inr h ↦ cc (rw h at p)
]

-- No safe byte is a blank, a quote or an operator.
abbrev separate : ℕ → Bool
separate c = not (is_safe c) || not (is_operator c || c == b' ' || c == quote || c == b'"')

separate_table : passes separate 128 ≡ true
unfolding passes is_safe is_operator
separate_table = refl

safe_bound : (c : ℕ) → is_safe c ≡ true → c < 128
unfolding is_safe
safe_bound c h = ground arith

split_safe_byte :
    (c : ℕ) (word : Option Text) (line : Text)
    → is_safe c ≡ true
    → split plain word (c ∷ line) ≡ split plain (some (begun word ++ (c ∷ []))) line
unfolding split
split_safe_byte c word line h =
    let s = passes_at separate 128 c (safe_bound c h) separate_table in ground arith

split_safe :
    (value : Text) (word : Option Text) (line : Text)
    → is_empty value ≡ false
    → all is_safe value ≡ true
    → split plain word (value ++ line) ≡ split plain (some (begun word ++ value)) line
split_safe [] word line f h = cc
split_safe (c ∷ []) word line f h = split_safe_byte c word line (ground arith)
split_safe (c ∷ d ∷ value) word line f h =
    split_safe_byte c word (d ∷ value ++ line) (ground arith)
    ∙ split_safe (d ∷ value) (some (begun word ++ (c ∷ []))) line refl (ground arith)
    ∙ ap (λ w. split plain (some w) line) (append_assoc (begun word) (c ∷ []) (d ∷ value))

split_replaced :
    (value word line : Text)
    → split single (some word) (replace_quotes value ++ (quote ∷ line))
      ≡ split plain (some (word ++ value)) line
unfolding split replace_quotes
split_replaced [] word line = rw (append-nil word)
split_replaced (c ∷ value) word line = elim (Bool-cases (c == quote)) [
  | inl h ↦ rw h (
      split_replaced value (word ++ (quote ∷ [])) line
      ∙ ap (λ w. split plain (some w) line)
          (append_assoc word (quote ∷ []) value
            ∙ ap (λ q. word ++ (q ∷ value)) (sym ((==_iff c quote).0 h))))
  | inr h ↦ rw h (
      rw (h, split)
        (split_replaced value (word ++ (c ∷ [])) line
          ∙ ap (λ w. split plain (some w) line) (append_assoc word (c ∷ []) value)))
]

-- One quoted argument is read as the argument, whatever its bytes, in front of any line.
pub split-shell_quote :
    (value line : Text)
    → split plain none (shell_quote value ++ line) ≡ split plain (some value) line
unfolding shell_quote
split-shell_quote [] line = unfold split in refl
split-shell_quote (c ∷ value) line = elim (Bool-cases (all is_safe (c ∷ value))) [
  | inl h ↦ rw h (split_safe (c ∷ value) none line refl h)
  | inr h ↦
      rw (h, append_assoc (replace_quotes (c ∷ value)) (quote ∷ []) line)
        (unfold split in split_replaced (c ∷ value) [] line)
]

-- What follows the command in the line: nothing, or a blank.
abbrev Follows : Text → Type 0
Follows [] = Unit
Follows (c ∷ line) = c ≡ b' '

-- What the shell takes for more than a command: a variable's name with `=`, or a reserved word, where
-- nothing in it needs quotes.
unfoldable pub is_taken : Text → Bool
unfolding is_reserved
is_taken command =
    not (is_empty command) && all is_safe command && (assigns false command || is_reserved command)
