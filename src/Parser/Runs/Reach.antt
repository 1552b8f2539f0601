-- ===== src/Parser/Runs/Reach.antt =====
-- The states that the parser can be in: it touches its lexer only by showing a token, taking one,
-- giving one back and reporting.
use metagen.Base.{
  ℕ, ◌^◌, ◌≤◌, ◌<◌, ◌≡◌, refl, true, false, List, String, length, ok, Runs, Runs-imp, Runs-ok,
  Runs-bind, Ensures-Runs, Bool-cases, inl, inr,
}
use metagen.Diagnostics.{ErrorHandler}
use metagen.Lex.Token.{Token}
use metagen.Lex.State.{lex_init}
use metagen.Lex.Scan.{ends_plain}
use metagen.Lex.Position.{newlines}
use metagen.Parser.State.{Parser, next_token, peek_token, error_parse}
use metagen.Parser.Runs.Ready.{no_eof, Ready, Later, Later-refl, Later-trans}
use metagen.Parser.Runs.Tokens.{TokenRead, next_token-Runs, error_parse-After}
use metagen.Lex.Rules.{lex_peek}
use metagen.Parser.Runs.Shown.{Shown, lex_peek-Shown}
use metagen.Parser.Runs.Roots.{start, lex_init-Ready}

-- What the parser does to its state. The last step is the assignment of `unlex` in `parse_stmt`.
pub data Step : Parser → Parser → Type 0 where
  take_token : (p q : Parser) (t : Token) → next_token p ≡ ok (t, q) → Step p q
  show_token : (p q : Parser) (t : Token) → peek_token p ≡ ok (t, q) → Step p q
  report : (p : Parser) (msg : String) (guilty : Token) → Step p (error_parse p msg guilty)
  give_back : (p : Parser) → Step p (record p { unlex = true })

pub data Reach (p : Parser) : Parser → Type 0 where
  here : Reach p p
  further : (q r : Parser) → Reach p q → Step q r → Reach p r

next_token_again :
    (p : Parser) → p.unlex ≡ true → next_token p ≡ ok (p.previous, record p { unlex = false })
unfolding next_token
next_token_again p e = rw e

-- The lexer of the parser after a step, whether or not a token has been given back.
next_token-Later : (p : Parser) → Ready p.lexer → Runs (λ r. Later p.lexer r.1.lexer) (next_token p)
next_token-Later p r = elim (Bool-cases p.unlex) [
  | inl e ↦ rw (next_token_again p e) (Later-refl p.lexer r)
  | inr e ↦
      Runs-imp (TokenRead p) (λ t. Later p.lexer t.1.lexer) (next_token p)
        (λ t a. let b = a.after in b.later) (next_token-Runs p (record { on = e; ready = r }))
]

abbrev shut : Parser → Parser
shut p = record p { unlex = false }

peek_token-Later : (p : Parser) → Ready p.lexer → Runs (λ r. Later p.lexer r.1.lexer) (peek_token p)
unfolding peek_token
peek_token-Later p r =
    Runs-bind (Shown p.lexer) (λ t. Later p.lexer t.1.lexer) (lex_peek p.lexer) _
      (Ensures-Runs (Shown p.lexer) (lex_peek p.lexer) (lex_peek-Shown p.lexer r)) λ t s. s.later

error_parse-Later :
    (p : Parser) (msg : String) (t : Token)
    → Ready p.lexer
    → Later p.lexer (error_parse p msg t).lexer
unfolding error_parse
error_parse-Later p msg t r =
    let a = error_parse-After (shut p) msg t (record { on = refl; ready = r }) in a.later

Step-Later : (p q : Parser) → Ready p.lexer → Step p q → Later p.lexer q.lexer
Step-Later p q r (take_token _ _ t e) =
    Runs-ok (λ x. Later p.lexer x.1.lexer) (next_token p) (t, q) e (next_token-Later p r)
Step-Later p q r (show_token _ _ t e) =
    Runs-ok (λ x. Later p.lexer x.1.lexer) (peek_token p) (t, q) e (peek_token-Later p r)
Step-Later p _ r (report _ msg t) = error_parse-Later p msg t r
Step-Later p _ r (give_back _) = Later-refl p.lexer r

Reach-Later : (p q : Parser) → Ready p.lexer → Reach p q → Later p.lexer q.lexer
Reach-Later p q r here = Later-refl p.lexer r
Reach-Later p q r (further m _ w s) =
    let l = Reach-Later p m r w in Later-trans p.lexer m.lexer q.lexer l (Step-Later m q l.ready s)

-- What holds between two steps: the source is the one that was given, the position is inside it, the
-- line counter counts the newlines in front of it, and the reports that were there are not fewer.
pub record InPlace (e : ErrorHandler) (input : List ℕ) (q : Parser) : Type 0 where
  pub source : q.lexer.input ≡ input
  pub inside : q.lexer.pos_current ≤ length input
  pub line : q.lexer.current.l ≡ newlines input q.lexer.pos_current
  pub reports : length e.errors ≤ length q.lexer.e.errors

-- In every state that the parser reaches from the start of a source of less than 2^32 bytes that does
-- not break off inside a word or number and holds no byte 0xff, by taking and showing tokens,
-- reporting and giving a token back in any order, the lexer stands inside the same source, its line
-- counter counts the newlines read, and no report has been lost.
pub Reach-InPlace :
    (e : ErrorHandler) (input : List ℕ) (q : Parser)
    → length input < 2 ^ 32
    → ends_plain input ≡ true
    → no_eof input ≡ true
    → Reach (start e input) q
    → InPlace e input q
unfolding lex_init
Reach-InPlace e input q h p n w =
    let l = Reach-Later (start e input) q (lex_init-Ready e input h p n) w in
    let y = l.ready in
    let v = y.well in
    record {
      source = l.input;
      inside = rw (← l.input) (v.inside);
      line = rw (← l.input) (v.line);
      reports = l.reports;
    }
