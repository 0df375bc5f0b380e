-- ===== src/Lexer/Stream.antt =====
-- src/lexer.c: `gen_file_token_stream`, without the caches.
use shecc.Prelude.{
  ℕ, zero, suc, ◌+◌, ◌≡◌, Bool, true, false, not, none, some, List, [], ◌∷◌, length, ltb, ◌==◌,
  if◌then◌else◌,
}
use shecc.Lexer.{Lex, Token, Kind}
use shecc.Lexer.Kinds.{same_kind}
use shecc.Lexer.Dispatch.{Outcome, lex_token}

-- `error_at` in the lexer or after it ends the program; `unfinished` is for a loop without fuel, in
-- the lexer too.
pub data Stream : Type 0 where
  failed : Stream
  unfinished : Stream
  tokens : List Token → Stream

abbrev pub is_eof : Kind → Bool
is_eof kind = same_kind kind Kind.t_eof

abbrev after : Token → Stream → Stream
after t failed = failed
after t unfinished = unfinished
after t (tokens ts) = tokens (t ∷ ts)

-- What the loop does with a token.
abbrev add_token : Outcome → (Lex → Stream) → Stream
add_token Outcome.unfinished rest = unfinished
add_token (Outcome.ended none) rest = failed
add_token (Outcome.ended (some (t, s))) rest =
    if is_eof t.kind then tokens (t ∷ []) else after t (rest s)

-- The loop over the file, as `lex_token` gives it the state on. Where it comes to the end of the
-- buffer without T_eof, that is an error.
unfoldable pub stream_loop : ℕ → Lex → Stream
unfolding lex_token
stream_loop zero s = unfinished
stream_loop (suc fuel) s =
    if not (ltb s.size (length s.elements))
    then failed
    else add_token (lex_token (length s.elements) s) (stream_loop fuel)

-- A buffer without room gives a stream of T_eof alone.
unfoldable pub gen_file_token_stream : Lex → Stream
unfolding stream_loop
gen_file_token_stream s =
    let start : Lex = record s { size = 0; pos = 0; line = 1; column = 1 } in
    if length s.elements == 0
    then tokens (
        record { kind = Kind.t_eof; literal = []; at = 0; len = 1; on_line = 1; on_column = 1 }
        ∷ [])
    else stream_loop (length s.elements + 1) start

-- The last token is T_eof, and no other is.
abbrev pub EndsOnce : List Token → Type 0
EndsOnce [] = ⊥
EndsOnce (t ∷ []) = is_eof t.kind ≡ true
EndsOnce (t ∷ u ∷ ts) = (is_eof t.kind ≡ false) × EndsOnce (u ∷ ts)

abbrev pub IsEnded : Stream → Type 0
IsEnded failed = Unit
IsEnded unfinished = ⊥
IsEnded (tokens ts) = EndsOnce ts
