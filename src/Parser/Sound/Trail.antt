-- ===== src/Parser/Sound/Trail.antt =====
-- The tokens that the parser takes between two of its states, and calls in sequence.
use metagen.Base.{
  some, ap, ◌∙◌, ℕ, ◌≤◌, ◌<◌, ◌≡◌, ◌⊎◌, inl, inr, refl, arith, Bool, true, false, List, [], ◌∷◌,
  ◌++◌, String, if_split, length, length-append, Outcome, ok, ◌>>=◌, Runs, Runs-imp, Runs-bind,
  Runs-value,
}
use metagen.Diagnostics.{CompilerError, error_at}
use metagen.Lex.Token.{TokenKind, Token, bare_token, token_err, is_kind, is_kind_eq}
use metagen.Parser.State.{Parser, next_token, peek_token, match_token, error_parse, consume_or_err}
use metagen.Parser.Runs.Tokens.{
  Reads, After, After-Reads, After-refl, After-trans, TokenRead, TokenShown, next_token-Runs,
  peek_token-Runs, error_parse-After,
}

-- The tokens read from `p` on, in their order, until the parser is in the state `q`.
pub data Took : Parser → List Token → Parser → Type 0 where
  stay : (p : Parser) → Took p [] p
  show :
      (p q r : Parser) (t : Token) (ts : List Token)
      → peek_token p ≡ ok (t, q)
      → Took q ts r
      → Took p ts r
  read :
      (p q r : Parser) (t : Token) (ts : List Token)
      → next_token p ≡ ok (t, q)
      → Took q ts r
      → Took p (t ∷ ts) r

pub Took-append :
    (p q r : Parser) (ts us : List Token) → Took p ts q → Took q us r → Took p (ts ++ us) r
Took-append p q r ts us (stay _) b = b
Took-append p q r ts us (show _ m _ t _ e a) b =
    show p m r t (ts ++ us) e (Took-append m q r ts us a b)
Took-append p q r _ us (read _ m _ t ts e a) b =
    read p m r t (ts ++ us) e (Took-append m q r ts us a b)

abbrev pub reports : Parser → ℕ
reports p = length p.lexer.e.errors

-- `q` is `p` later on, and unless there was a report, tokens with the property `G` were taken.
pub record Trail (p q : Parser) (G : List Token → Type 0) : Type 0 where
  pub after : After p q
  pub trail : (reports p < reports q) ⊎ ((ts : List Token) × Took p ts q × G ts)

After-reports : (p q : Parser) → After p q → reports p ≤ reports q
After-reports p q a = let l = a.later in l.reports

-- One stretch behind another.
pub Trail-then :
    (p q r : Parser) (G K : List Token → Type 0)
    → Trail p q G
    → Trail q r (λ us. (ts : List Token) → G ts → K (ts ++ us))
    → Trail p r K
Trail-then p q r G K a b =
    let x = After-reports p q a.after in
    let y = After-reports q r b.after in
    record {
      after = After-trans p q r a.after b.after;
      trail = elim (a.trail) [
        | inl l ↦ inl (omega (arith, l, y))
        | inr m ↦ elim (b.trail) [
          | inl l ↦ inl (omega (arith, l, x))
          | inr n ↦ inr (m.0 ++ n.0, Took-append p q r m.0 n.0 m.1 n.1, n.2 m.0 m.2)
        ]
      ];
    }

pub Trail-imp :
    (p q : Parser) (G K : List Token → Type 0)
    → ((ts : List Token) → G ts → K ts)
    → Trail p q G
    → Trail p q K
Trail-imp p q G K f a = record {
  after = a.after;
  trail = elim (a.trail) [ inl l ↦ inl l | inr m ↦ inr (m.0, m.1, f m.0 m.2) ];
}

-- Nothing taken, and a report made.
pub Trail-refl : (p : Parser) (G : List Token → Type 0) → Reads p → G [] → Trail p p G
Trail-refl p G r g = record { after = After-refl p r; trail = inr ([], stay p, g) }

pub error_parse-Trail :
    (p : Parser) (msg : String) (t : Token) (G : List Token → Type 0)
    → Reads p
    → Trail p (error_parse p msg t) G
unfolding error_parse error_at
error_parse-Trail p msg t G r = record {
  after = error_parse-After p msg t r;
  trail = inl (
      let more : CompilerError = record { line = some t.end.l; name = []; msg = msg } in
      omega (arith, length-append p.lexer.e.errors (more ∷ [])));
}

-- A call whose value has the tokens with the property `G`.
abbrev pub Gives {ℓ} : {A : Type ℓ} → Parser → (List Token → A → Type 0) → A × Parser → Type 0
Gives p G r = Trail p r.1 (λ ts. G ts r.0)

module _ {ℓ κ} {A : Type ℓ} {B : Type κ} where
  -- A call, and the code behind it.
  pub Gives-bind :
      (p : Parser) (G : List Token → A → Type 0) (K : List Token → B → Type 0)
      (m : Outcome (A × Parser)) (f : A × Parser → Outcome (B × Parser))
      → Runs (Gives p G) m
      → ((r : A × Parser)
          → After p r.1
          → Runs (Gives r.1 (λ us b. (ts : List Token) → G ts r.0 → K (ts ++ us) b)) (f r))
      → Runs (Gives p K) (m >>= f)
  Gives-bind p G K m f h k = Runs-bind (Gives p G) (Gives p K) m f h λ r a.
      Runs-imp (Gives r.1 (λ us b. (ts : List Token) → G ts r.0 → K (ts ++ us) b)) (Gives p K) (f r)
        (λ s b. Trail-then p r.1 s.1 (λ ts. G ts r.0) (λ ts. K ts s.0) a b) (k r a.after)

module _ {κ} {B : Type κ} where
  pub next_bind :
      (p : Parser) (K : List Token → B → Type 0) (f : Token × Parser → Outcome (B × Parser))
      → Reads p
      → ((r : Token × Parser) → TokenRead p r → Runs (Gives r.1 (λ ts b. K (r.0 ∷ ts) b)) (f r))
      → Runs (Gives p K) (next_token p >>= f)
  next_bind p K f r k =
      Runs-bind (λ t. (next_token p ≡ ok t) × TokenRead p t) (Gives p K) (next_token p) f
        (Runs-value (TokenRead p) (next_token p) (next_token-Runs p r))
        λ t a.
          let m = a.1 in
          Runs-imp (Gives t.1 (λ ts b. K (t.0 ∷ ts) b)) (Gives p K) (f t)
            (λ s b.
              Trail-then p t.1 s.1 (λ ts. ts ≡ t.0 ∷ []) (λ ts. K ts s.0)
                (record {
                  after = m.after;
                  trail = inr (t.0 ∷ [], read p t.1 t.1 t.0 [] a.0 (stay t.1), refl);
                })
                (Trail-imp t.1 s.1 (λ ts. K (t.0 ∷ ts) s.0)
                  (λ us. (ts : List Token) → ts ≡ t.0 ∷ [] → K (ts ++ us) s.0) (λ us g ts e. rw e g)
                  b))
            (k t m)

  -- The call that shows a token, with its equation.
  pub peek_eq_bind :
      (p : Parser) (K : List Token → B → Type 0) (f : Token × Parser → Outcome (B × Parser))
      → Reads p
      → ((r : Token × Parser) → peek_token p ≡ ok r → TokenShown p r → Runs (Gives r.1 K) (f r))
      → Runs (Gives p K) (peek_token p >>= f)
  peek_eq_bind p K f r k =
      Runs-bind (λ t. (peek_token p ≡ ok t) × TokenShown p t) (Gives p K) (peek_token p) f
        (Runs-value (TokenShown p) (peek_token p) (peek_token-Runs p r))
        λ t a.
          let m = a.1 in
          Runs-imp (Gives t.1 K) (Gives p K) (f t)
            (λ s b.
              Trail-then p t.1 s.1 (λ ts. ts ≡ []) (λ ts. K ts s.0)
                (record {
                  after = m.after;
                  trail = inr ([], show p t.1 t.1 t.0 [] a.0 (stay t.1), refl);
                })
                (Trail-imp t.1 s.1 (λ ts. K ts s.0)
                  (λ us. (ts : List Token) → ts ≡ [] → K (ts ++ us) s.0) (λ us g ts e. rw e g) b))
            (k t a.0 m)

  pub peek_bind :
      (p : Parser) (K : List Token → B → Type 0) (f : Token × Parser → Outcome (B × Parser))
      → Reads p
      → ((r : Token × Parser) → TokenShown p r → Runs (Gives r.1 K) (f r))
      → Runs (Gives p K) (peek_token p >>= f)
  peek_bind p K f r k = peek_eq_bind p K f r (λ t e m. k t m)

-- A token read behind the call that showed its kind.
pub read_kind :
    (p : Parser) (t s : Token × Parser) (kind : TokenKind)
    → TokenShown p t
    → TokenRead t.1 s
    → is_kind t.0.kind kind ≡ true
    → s.0.kind ≡ kind
read_kind p t s kind a b h =
    ap (λ (x : Token). x.kind) (b.same a.full ∙ a.token) ∙ is_kind_eq t.0.kind kind h

abbrev pub Consumed : TokenKind → List Token → Token → Type 0
Consumed kind ts t = (ts ≡ t ∷ []) × (t.kind ≡ kind)

pub consume_or_err-Gives :
    (p : Parser) (kind : TokenKind) (msg : String)
    → Reads p
    → Runs (Gives p (Consumed kind)) (consume_or_err p kind msg)
unfolding consume_or_err
consume_or_err-Gives p kind msg r = peek_bind p (Consumed kind) _ r λ t a.
    let u = After-Reads p t.1 a.after in
    if_split (Runs (Gives t.1 (Consumed kind))) (is_kind t.0.kind kind)
      (λ h. next_bind t.1 (Consumed kind) _ u λ s b.
        Trail-refl s.1 (λ ts. Consumed kind (s.0 ∷ ts) t.0) (After-Reads t.1 s.1 b.after)
          (ap (λ x. x ∷ []) (b.same a.full ∙ a.token), is_kind_eq t.0.kind kind h))
      (λ _. error_parse-Trail t.1 msg t.0 (λ ts. Consumed kind ts (bare_token token_err)) u)

abbrev pub MaybeToken : TokenKind → List Token → Bool → Type 0
MaybeToken kind ts found =
    (found ≡ true → (t : Token) × (ts ≡ t ∷ []) × (t.kind ≡ kind)) × (found ≡ false → ts ≡ [])

pub match_token-Gives :
    (p : Parser) (kind : TokenKind)
    → Reads p
    → Runs (Gives p (MaybeToken kind)) (match_token p kind)
unfolding match_token
match_token-Gives p kind r = peek_bind p (MaybeToken kind) _ r λ t a.
    let u = After-Reads p t.1 a.after in
    if_split (Runs (Gives t.1 (MaybeToken kind))) (is_kind t.0.kind kind)
      (λ h. next_bind t.1 (MaybeToken kind) _ u λ s b.
        Trail-refl s.1 (λ ts. MaybeToken kind (s.0 ∷ ts) true) (After-Reads t.1 s.1 b.after)
          (λ _. (s.0, refl, read_kind p t s kind a b h), λ e. cc))
      (λ _. Trail-refl t.1 (λ ts. MaybeToken kind ts false) u (λ e. cc, λ _. refl))

pub next_token-Gives :
    (p : Parser)
    → Reads p
    → Runs (λ t. Trail p t.1 (λ ts. ts ≡ t.0 ∷ []) × TokenRead p t) (next_token p)
next_token-Gives p r =
    Runs-imp (λ t. (next_token p ≡ ok t) × TokenRead p t)
      (λ t. Trail p t.1 (λ ts. ts ≡ t.0 ∷ []) × TokenRead p t) (next_token p)
      (λ t a.
        let m = a.1 in
        (
          record {
            after = m.after;
            trail = inr (t.0 ∷ [], read p t.1 t.1 t.0 [] a.0 (stay t.1), refl);
          },
          m,
        ))
      (Runs-value (TokenRead p) (next_token p) (next_token-Runs p r))
