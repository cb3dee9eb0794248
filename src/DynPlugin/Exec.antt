-- ===== src/DynPlugin/Exec.antt =====
-- parseExec of dynplugin/process.go: a command line into words.
use mathlib.Core.List.{append-nil, append_assoc}
use p2p_tun.Prelude.{
  Bool, List, Option, [], ap, arith, false, if◌then◌else◌, none, not, refl, some, sym, true, ℕ,
  ◌&&◌, ◌++◌, ◌==◌, ◌∙◌, ◌∷◌, ◌≡◌, ◌≢◌,
}
use p2p_tun.Text.{Text, is_empty}

abbrev pub dquote : ℕ
dquote = 0x22

-- The variables of the loop.
pub record ExecState : Type 0 where
  pub parts : List Text
  pub current : Text
  pub in_quote : Bool
  pub quote_char : ℕ

abbrev pub blank_state : ExecState
blank_state = record { parts = []; current = []; in_quote = false; quote_char = 0 }

-- `if len(current) > 0 { parts = append(parts, string(current)) }`
unfoldable pub flush : ExecState → List Text
flush s = if is_empty s.current then s.parts else s.parts ++ s.current ∷ []

-- The switch of the loop.
unfoldable pub exec_rune : ExecState → ℕ → ExecState
unfolding flush
exec_rune s r =
    if r == dquote && not s.in_quote
    then record s { in_quote = true; quote_char = r }
    else if r == s.quote_char && s.in_quote
    then record s { in_quote = false; quote_char = 0 }
    else if r == b' ' && not s.in_quote
    then record s { parts = flush s; current = [] }
    else record s { current = s.current ++ r ∷ [] }

unfoldable pub exec_runes : ExecState → Text → ExecState
exec_runes s [] = s
exec_runes s (r ∷ rs) = exec_runes (exec_rune s r) rs

abbrev pub or_empty_command : List Text → Option (List Text)
or_empty_command [] = none
or_empty_command (p ∷ ps) = some (p ∷ ps)

-- parseExec; `none` is its error.
unfoldable pub parse_exec : Text → Option (List Text)
unfolding exec_runes flush
parse_exec exec_str = or_empty_command (flush (exec_runes blank_state exec_str))

-- Words in quotes, each followed by a space.
pub quote : List Text → Text
quote [] = []
quote (w ∷ ws) = dquote ∷ (w ++ dquote ∷ b' ' ∷ quote ws)

-- No word is empty or has a quote in it.
abbrev pub NoQuote : Text → Type 0
NoQuote [] = Unit
NoQuote (c ∷ w) = (c ≢ dquote) × NoQuote w

abbrev pub AreWords : List Text → Type 0
AreWords [] = Unit
AreWords (w ∷ ws) = ((w ≢ []) × NoQuote w) × AreWords ws

exec_runes-append :
    (s : ExecState) (a b : Text) → exec_runes s (a ++ b) ≡ exec_runes (exec_runes s a) b
unfolding exec_runes
exec_runes-append s [] b = refl
exec_runes-append s (r ∷ a) b = exec_runes-append (exec_rune s r) a b

abbrev quoting : List Text → Text → ExecState
quoting parts current = record {
  parts = parts;
  current = current;
  in_quote = true;
  quote_char = dquote;
}

abbrev open_state : List Text → ExecState
open_state parts = record { parts = parts; current = []; in_quote = false; quote_char = 0 }

quoted_rune :
    (parts : List Text) (current : Text) (c : ℕ)
    → c ≢ dquote
    → exec_rune (quoting parts current) c ≡ quoting parts (current ++ c ∷ [])
unfolding exec_rune
quoted_rune parts current c n = ground (arith, n)

-- Inside quotes every other character is a part of the word.
quoted_word :
    (parts : List Text) (current w : Text)
    → NoQuote w
    → exec_runes (quoting parts current) w ≡ quoting parts (current ++ w)
unfolding exec_runes
quoted_word parts current [] n = ap (quoting parts) (sym (append-nil current))
quoted_word parts current (c ∷ w) n =
    ap (λ s. exec_runes s w) (quoted_rune parts current c n.0)
    ∙ quoted_word parts (current ++ c ∷ []) w n.1
    ∙ ap (quoting parts) (append_assoc current (c ∷ []) w)

closing_quote :
    (parts : List Text) (w rest : Text)
    → w ≢ []
    → exec_runes (quoting parts w) (dquote ∷ b' ' ∷ rest)
      ≡ exec_runes (open_state (parts ++ w ∷ [])) rest
unfolding exec_runes exec_rune flush
closing_quote parts [] rest n = absurd (n refl)
closing_quote parts (c ∷ w) rest n = refl

quoted_words :
    (parts ws : List Text)
    → AreWords ws
    → exec_runes (open_state parts) (quote ws) ≡ open_state (parts ++ ws)
unfolding exec_runes exec_rune quote
quoted_words parts [] n = ap open_state (sym (append-nil parts))
quoted_words parts (w ∷ ws) n =
    exec_runes-append (quoting parts []) w (dquote ∷ b' ' ∷ quote ws)
    ∙ ap (λ s. exec_runes s (dquote ∷ b' ' ∷ quote ws)) (quoted_word parts [] w n.0.1)
    ∙ closing_quote parts w (quote ws) n.0.0
    ∙ quoted_words (parts ++ w ∷ []) ws n.1
    ∙ ap open_state (append_assoc parts (w ∷ []) ws)

-- A command line of words in quotes, whatever spaces they have inside, is split into these words.
pub parse_exec-quote :
    (w : Text) (ws : List Text) → AreWords (w ∷ ws) → parse_exec (quote (w ∷ ws)) ≡ some (w ∷ ws)
unfolding parse_exec flush
parse_exec-quote w ws n = rw (quoted_words [] (w ∷ ws) n) refl

abbrev pub AllFull : List Text → Type 0
AllFull [] = Unit
AllFull (p ∷ ps) = (p ≢ []) × AllFull ps

AllFull-append : (ps : List Text) (p : Text) → AllFull ps → p ≢ [] → AllFull (ps ++ p ∷ [])
AllFull-append [] p f n = (n, tt)
AllFull-append (q ∷ ps) p f n = (f.0, AllFull-append ps p f.1 n)

full_parts :
    (parts : List Text) (current : Text)
    → AllFull parts
    → AllFull (if is_empty current then parts else parts ++ current ∷ [])
full_parts parts [] f = f
full_parts parts (c ∷ current) f = AllFull-append parts (c ∷ current) f (λ e. ground (arith, e))

flush-AllFull : (s : ExecState) → AllFull s.parts → AllFull (flush s)
unfolding flush
flush-AllFull s f = full_parts s.parts s.current f

exec_rune-AllFull : (s : ExecState) (r : ℕ) → AllFull s.parts → AllFull (exec_rune s r).parts
unfolding exec_rune
exec_rune-AllFull s r f = ground (arith, f, flush-AllFull s f)

exec_runes-AllFull : (s : ExecState) (rs : Text) → AllFull s.parts → AllFull (exec_runes s rs).parts
unfolding exec_runes
exec_runes-AllFull s [] f = f
exec_runes-AllFull s (r ∷ rs) f = exec_runes-AllFull (exec_rune s r) rs (exec_rune-AllFull s r f)

some_command :
    (ps qs : List Text) → AllFull ps → or_empty_command ps ≡ some qs → AllFull qs × (qs ≢ [])
some_command [] qs f e = ground (arith, e)
some_command (p ∷ ps) [] f e = ground (arith, e)
some_command (p ∷ ps) (q ∷ qs) f e = ground (arith, e, f)

-- A command that parseExec accepts has at least one word, and no word of it is empty, whatever the
-- text is.
pub parse_exec_words :
    (exec_str : Text) (words : List Text)
    → parse_exec exec_str ≡ some words
    → AllFull words × (words ≢ [])
unfolding parse_exec
parse_exec_words exec_str words e =
    some_command (flush (exec_runes blank_state exec_str)) words
      (flush-AllFull (exec_runes blank_state exec_str) (exec_runes-AllFull blank_state exec_str tt))
      e
