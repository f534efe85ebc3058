-- ===== src/Parser/Tokens.antt =====
-- imapgw/parser.py: tokens, commands, events, limits and the errors.
use imap_work_trial.Base.{ℕ, ◌+◌, ◌*◌, Bytes, Option, Bool}

mutual
  pub data Token : Type 0 where
    atom : Bytes → Token
    quoted_str : Bytes → Token
    literal_str : Bytes → Token
    list_tok : Tokens → Token

  -- The tuple of tokens inside a list.
  pub data Tokens : Type 0 where
    nil : Tokens
    cons : Token → Tokens → Tokens

-- `tokens.append(token)`
unfoldable pub add_last : Tokens → Token → Tokens
add_last nil t = cons t nil
add_last (cons u ts) t = cons u (add_last ts t)

abbrev pub join : Tokens → Tokens → Tokens
join nil us = us
join (cons t ts) us = cons t (join ts us)

-- The messages of `TokenizeError`; the fuel's end belongs to the model only.
pub data TokenizeError : Type 0 where
  unbalanced literal_not_last control_in_command invalid_escape control_in_quoted : TokenizeError
  non_ascii_quoted unterminated_quoted control_in_atom non_ascii_atom expected_atom : TokenizeError
  invalid_in_section unterminated_section expected_string out_of_fuel : TokenizeError

pub data Result {ℓ} (A : Type ℓ) : Type ℓ where
  ok : A → Result A
  err : TokenizeError → Result A

infixl 1 ◌>>=◌
abbrev pub ◌>>=◌ {ℓ κ} : {A : Type ℓ} {B : Type κ} → Result A → (A → Result B) → Result B
ok a >>= f = f a
err e >>= f = err e

-- The messages of `ParseError`.
pub data Message : Type 0 where
  tokenize : TokenizeError → Message
  empty_command missing_command not_atoms invalid_tag nul_byte literal_too_large : Message
  command_too_large line_too_long : Message

pub record Command : Type 0 where
  pub tag : Bytes
  pub name : Bytes
  pub args : Tokens

pub data Event : Type 0 where
  command : Command → Event
  continuation_request : ℕ → Event
  parse_error : Option Bytes → Message → Bool → Event

pub record Limits : Type 0 where
  pub max_line : ℕ
  pub max_literal : ℕ
  pub max_command_bytes : ℕ
  pub max_literals : ℕ

-- The defaults of `Limits`.
abbrev pub default_limits : Limits
default_limits = record {
  max_line = 64 * 1024;
  max_literal = 1024 * 1024;
  max_command_bytes = 1024 * 1024 + 64 * 1024;
  max_literals = 16;
}

-- `astring_bytes`
unfoldable pub astring_bytes : Token → Result Bytes
astring_bytes (atom value) = ok value
astring_bytes (quoted_str value) = ok value
astring_bytes (literal_str value) = ok value
astring_bytes (list_tok items) = err expected_string
