-- ===== src/Parser/Runs/Tokens.antt =====
-- The parser's calls that read tokens, at a lexer that is ready: they return or exit.
use metagen.Base.{
  ==_iff, ℕ, ◌≤◌, ◌<◌, ◌≡◌, ◌≢◌, ◌∙◌, ◌⊎◌, inl, inr, refl, sym, ap, arith, Bool, true, false, List,
  [], ◌∷◌, String, if_split, length, Outcome, fault, ◌>>=◌, Runs, Runs-imp, Runs-bind, Ensures-Runs,
  some, length-append,
}
use metagen.Diagnostics.{CompilerError, error_at}
use metagen.Lex.Token.{TokenKind, token_err, token_eof, Token, is_kind, kind_no, is_kind_eq}
use metagen.Lex.Rules.{lex_next, lex_peek}
use metagen.Parser.State.{
  Parser, exit_on, next_token, peek_token, match_token, error_parse, consume_or_err,
}
use metagen.Parser.Runs.Shown.{Shown, lex_peek-Shown}
use metagen.Parser.Runs.Ready.{
  Ready, left, Later, Later-refl, Later-trans, Taken, lex_next-Taken, reslot-WellPlaced,
}

-- The parser reads on from the lexer, which is ready.
pub record Reads (p : Parser) : Type 0 where
  pub on : p.unlex ≡ false
  pub ready : Ready p.lexer

-- `q` is `p` later on.
pub record After (p q : Parser) : Type 0 where
  pub on : q.unlex ≡ false
  pub later : Later p.lexer q.lexer

-- A bound on the tokens left.
abbrev pub tokens_left : Parser → ℕ
tokens_left p = left p.lexer

pub After-Reads : (p q : Parser) → After p q → Reads q
After-Reads p q a = let l = a.later in record { on = a.on; ready = l.ready }

pub After-refl : (p : Parser) → Reads p → After p p
After-refl p r = record { on = r.on; later = Later-refl p.lexer r.ready }

pub After-trans : (p q r : Parser) → After p q → After q r → After p r
After-trans p q r a b = record {
  on = b.on;
  later = Later-trans p.lexer q.lexer r.lexer a.later b.later;
}

pub After-left : (p q : Parser) → After p q → tokens_left q ≤ tokens_left p
After-left p q a = let l = a.later in l.less

pub After-below : (p q : Parser) (f : ℕ) → After p q → tokens_left p < f → tokens_left q < f
After-below p q f a h = let x = After-left p q a in omega (arith, x)

-- What the parser's functions return: a parser later on, with a value.
abbrev pub On {ℓ} : {A : Type ℓ} → Parser → A × Parser → Type 0
On p r = After p r.1

-- Code that reads on behind code that reads on.
pub On-bind {ℓ κ} :
    {A : Type ℓ} {B : Type κ} (p : Parser) (m : Outcome (A × Parser))
    (f : A × Parser → Outcome (B × Parser))
    → Runs (On p) m
    → ((r : A × Parser) → After p r.1 → Runs (On r.1) (f r))
    → Runs (On p) (m >>= f)
On-bind p m f h k =
    Runs-bind (On p) (On p) m f h
      λ r a. Runs-imp (On r.1) (On p) (f r) (λ s b. After-trans p r.1 s.1 a b) (k r a)

-- A token read: the end, or one token less is left; when one was shown, it is that one.
pub record TokenRead (p : Parser) (r : Token × Parser) : Type 0 where
  pub after : After p r.1
  pub same : p.lexer.has_next ≡ true → r.0 ≡ p.lexer.next
  pub last : r.1.previous ≡ r.0
  pub fewer : (r.0.kind ≡ token_eof) ⊎ (tokens_left r.1 < tokens_left p)

-- A token shown.
pub record TokenShown (p : Parser) (r : Token × Parser) : Type 0 where
  pub after : After p r.1
  pub full : r.1.lexer.has_next ≡ true
  pub token : r.1.lexer.next ≡ r.0
  pub kept : r.1.previous ≡ p.previous

exits :
    (A : Type 0) (P : A → Type 0) (es : List CompilerError)
    → 0 < length es
    → Runs P (fault (exit_on es))
exits A P [] h = omega arith
exits A P (e ∷ es) h = tt

pub not_kind : (k expected : TokenKind) → is_kind k expected ≡ false → k ≢ expected
unfolding is_kind
not_kind k expected h e = cc (h, (==_iff (kind_no k) (kind_no expected)).1 (ap kind_no e))

pub next_token-Runs : (p : Parser) → Reads p → Runs (TokenRead p) (next_token p)
unfolding next_token
next_token-Runs p r =
    if_split (Runs (TokenRead p)) p.unlex (λ e. cc)
      λ _.
        Runs-bind (Taken p.lexer) (TokenRead p) (lex_next p.lexer) _
          (Ensures-Runs (Taken p.lexer) (lex_next p.lexer) (lex_next-Taken p.lexer r.ready))
          λ t k.
            if_split (Runs (TokenRead p)) (is_kind t.0.kind token_err)
              (λ e.
                let err : t.0.kind ≡ token_err = is_kind_eq t.0.kind token_err e in
                elim (k.outcome) [
                  | inl x ↦ exits (Token × Parser) (TokenRead p) t.1.e.errors x.1
                  | inr y ↦ elim (y.1) [ inl z ↦ cc | inr z ↦ absurd (z.0 err) ]
                ])
              (λ e. elim (k.outcome) [
                | inl x ↦ absurd (not_kind t.0.kind token_err e x.0)
                | inr y ↦ record {
                  after = record { on = r.on; later = y.0 };
                  same = k.same;
                  last = refl;
                  fewer = elim (y.1) [ inl z ↦ inl z | inr z ↦ inr z.1 ];
                }
              ])

pub peek_token-Runs : (p : Parser) → Reads p → Runs (TokenShown p) (peek_token p)
unfolding peek_token
peek_token-Runs p r =
    Runs-bind (Shown p.lexer) (TokenShown p) (lex_peek p.lexer) _
      (Ensures-Runs (Shown p.lexer) (lex_peek p.lexer) (lex_peek-Shown p.lexer r.ready))
      λ t s. record {
        after = record { on = r.on; later = s.later };
        full = s.slot;
        token = s.token;
        kept = refl;
      }

pub error_parse-After :
    (p : Parser) (msg : String) (t : Token) → Reads p → After p (error_parse p msg t)
unfolding error_parse error_at
error_parse-After p msg t r =
    let y = r.ready in
    let more : CompilerError = record { line = some t.end.l; name = []; msg = msg } in
    let grown = length-append p.lexer.e.errors (more ∷ []) in
    record {
      on = r.on;
      later = record {
        ready = record {
          well =
              reslot-WellPlaced p.lexer (error_at p.lexer.e msg t.end.l) p.lexer.has_next
                p.lexer.next y.well;
          plain = y.plain;
          text = y.text;
          fresh = y.fresh;
          reported = λ b. omega (arith, grown);
        };
        input = refl;
        less = omega arith;
        reports = omega (arith, grown);
      };
    }

-- Code behind a token that is shown, or read.
pub shown_bind {κ} :
    {B : Type κ} (p : Parser) (f : Token × Parser → Outcome (B × Parser))
    → Reads p
    → ((r : Token × Parser) → TokenShown p r → Runs (On r.1) (f r))
    → Runs (On p) (peek_token p >>= f)
shown_bind p f r k =
    Runs-bind (TokenShown p) (On p) (peek_token p) f (peek_token-Runs p r)
      λ t s. Runs-imp (On t.1) (On p) (f t) (λ u b. After-trans p t.1 u.1 s.after b) (k t s)

pub read_bind {κ} :
    {B : Type κ} (p : Parser) (f : Token × Parser → Outcome (B × Parser))
    → Reads p
    → ((r : Token × Parser) → TokenRead p r → Runs (On r.1) (f r))
    → Runs (On p) (next_token p >>= f)
read_bind p f r k =
    Runs-bind (TokenRead p) (On p) (next_token p) f (next_token-Runs p r)
      λ t s. Runs-imp (On t.1) (On p) (f t) (λ u b. After-trans p t.1 u.1 s.after b) (k t s)

-- A token read behind the call that showed it: one token less is left unless it is the end.
pub shown_read :
    (p : Parser) (r s : Token × Parser)
    → TokenShown p r
    → TokenRead r.1 s
    → r.0.kind ≢ token_eof
    → tokens_left s.1 < tokens_left r.1
shown_read p r s a b n = elim (b.fewer) [
  | inl e ↦ absurd (n (ap (λ (t : Token). t.kind) (sym (b.same a.full ∙ a.token)) ∙ e))
  | inr l ↦ l
]

pub kind_not_eof :
    (k expected : TokenKind) → is_kind k expected ≡ true → expected ≢ token_eof → k ≢ token_eof
kind_not_eof k expected h n e = n (sym (is_kind_eq k expected h) ∙ e)

-- A token matched: one token less is left, unless it is the end.
pub record Matched (p : Parser) (kind : TokenKind) (r : Bool × Parser) : Type 0 where
  pub after : After p r.1
  pub fewer : r.0 ≡ true → kind ≢ token_eof → tokens_left r.1 < tokens_left p

pub match_token-Runs :
    (p : Parser) (kind : TokenKind) → Reads p → Runs (Matched p kind) (match_token p kind)
unfolding match_token
match_token-Runs p kind r =
    Runs-bind (TokenShown p) (Matched p kind) (peek_token p) _ (peek_token-Runs p r) λ t a.
      if_split (Runs (Matched p kind)) (is_kind t.0.kind kind)
        (λ h.
          Runs-bind (TokenRead t.1) (Matched p kind) (next_token t.1) _
            (next_token-Runs t.1 (After-Reads p t.1 a.after))
            λ s b. record {
              after = After-trans p t.1 s.1 a.after b.after;
              fewer = λ _ n.
                  let x = After-left p t.1 a.after in
                  let y = shown_read p t s a b (kind_not_eof t.0.kind kind h n) in
                  omega (arith, x, y);
            })
        (λ h. record { after = a.after; fewer = λ e. cc })

pub match_bind {κ} :
    {B : Type κ} (p : Parser) (kind : TokenKind) (f : Bool × Parser → Outcome (B × Parser))
    → Reads p
    → ((r : Bool × Parser) → Matched p kind r → Runs (On r.1) (f r))
    → Runs (On p) (match_token p kind >>= f)
match_bind p kind f r k =
    Runs-bind (Matched p kind) (On p) (match_token p kind) f (match_token-Runs p kind r)
      λ t s. Runs-imp (On t.1) (On p) (f t) (λ u b. After-trans p t.1 u.1 s.after b) (k t s)

pub consume_or_err-Runs :
    (p : Parser) (kind : TokenKind) (msg : String)
    → Reads p
    → Runs (On p) (consume_or_err p kind msg)
unfolding consume_or_err
consume_or_err-Runs p kind msg r = shown_bind p _ r λ t a.
    if_split (Runs (On t.1)) (is_kind t.0.kind kind)
      (λ h.
        read_bind t.1 _ (After-Reads p t.1 a.after)
          λ s b. After-refl s.1 (After-Reads t.1 s.1 b.after))
      (λ h. error_parse-After t.1 msg t.0 (After-Reads p t.1 a.after))

pub consume_bind {κ} :
    {B : Type κ} (p : Parser) (kind : TokenKind) (msg : String)
    (f : Token × Parser → Outcome (B × Parser))
    → Reads p
    → ((r : Token × Parser) → After p r.1 → Runs (On r.1) (f r))
    → Runs (On p) (consume_or_err p kind msg >>= f)
consume_bind p kind msg f r k =
    On-bind p (consume_or_err p kind msg) f (consume_or_err-Runs p kind msg r) k
