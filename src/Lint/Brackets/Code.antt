-- ===== src/Lint/Brackets/Code.antt =====
-- Code whose parentheses, brackets and braces are closed in order, with no angle brackets.
use ringfile.Prelude.{ℕ, Text, [], ◌∷◌, ◌++◌, ◌≡◌, Bool, true, not, ◌||◌, ◌==◌}
use ringfile.Lint.Brackets.{is_open, is_close}

pub data Bracket : Type 0 where
  round square curly : Bracket

abbrev pub opening : Bracket → ℕ
opening round = b'('
opening square = b'['
opening curly = b'{'

abbrev pub closing : Bracket → ℕ
closing round = b')'
closing square = b']'
closing curly = b'}'

-- a character that neither opens nor closes anything
unfoldable pub is_plain : ℕ → Bool
is_plain c = not (is_open c || is_close c || c == b'<' || c == b'>')

pub data Code : Type 0 where
  end : Code
  plain : (c : ℕ) → is_plain c ≡ true → Code → Code
  nest : Bracket → Code → Code → Code

-- The text of a piece of code.
abbrev pub text : Code → Text
text end = []
text (plain c h w) = c ∷ text w
text (nest b w v) = opening b ∷ (text w ++ closing b ∷ text v)
