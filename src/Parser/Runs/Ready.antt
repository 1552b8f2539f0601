-- ===== src/Parser/Runs/Ready.antt =====
-- The lexer between two calls of the parser: where it stands, and how much is left to read.
use metagen.Base.{
  ℕ, zero, suc, ◌+◌, ◌-◌, ◌≤◌, ◌<◌, ◌≡◌, ◌≢◌, ◌∙◌, ◌⊎◌, inl, inr, refl, ap, arith, Bool, true,
  false, not, ◌&&◌, List, [], ◌∷◌, ◌==◌, if◌then◌else◌, Bool-cases, length, get_or, ok, Ensures,
  Ensures-imp,
}
use metagen.Diagnostics.{ErrorHandler}
use metagen.Lex.Token.{TokenKind, token_err, token_eof, Token}
use metagen.Lex.State.{Lexer, eof}
use metagen.Lex.Rules.{lex_next}
use metagen.Lex.Position.{WellPlaced}
use metagen.Lex.Scan.{ends_plain}
use metagen.Lex.Spelling.{Spells, Fresh, Emitted, Lexed}
use metagen.Lex.Correct.{lex_next-Lexed}
use metagen.Lex.Stream.{ends_stream}

-- No byte 0xff, which the lexer takes for the end.
unfoldable pub no_eof : List ℕ → Bool
no_eof [] = true
no_eof (c ∷ cs) = not (c == eof) && no_eof cs

pub no_eof_at : (xs : List ℕ) (p : ℕ) → no_eof xs ≡ true → get_or xs p 0 ≢ eof
unfolding no_eof
no_eof_at [] p h e = omega arith
no_eof_at (x ∷ xs) zero h e = ground arith
no_eof_at (x ∷ xs) (suc p) h e = no_eof_at xs p (ground arith) e

-- The look-ahead slot holds a token that could not be read.
abbrev pub Broken : Lexer → Type 0
Broken a = (a.has_next ≡ true) × (a.next.kind ≡ token_err)

-- Between two calls: at a fresh start, in a source that the lexer reads to its end. When the slot
-- holds an error, the error has been reported.
pub record Ready (a : Lexer) : Type 0 where
  pub well : WellPlaced a
  pub plain : ends_plain a.input ≡ true
  pub text : no_eof a.input ≡ true
  pub fresh : Broken a ⊎ Fresh a
  pub reported : Broken a → 0 < length a.e.errors

-- What the slot holds for the parser.
abbrev pub in_slot : Lexer → ℕ
in_slot a = if a.has_next && not (ends_stream a.next.kind) then 1 else 0

pub one_at_most : (b : Bool) → (if b then 1 else 0) ≤ 1
one_at_most true = omega arith
one_at_most false = omega arith

-- A bound on the tokens left, the end of the input not counted.
abbrev pub left : Lexer → ℕ
left a = length a.input - a.pos_current + in_slot a

-- `b` is `a` later on.
pub record Later (a b : Lexer) : Type 0 where
  pub ready : Ready b
  pub input : b.input ≡ a.input
  pub less : left b ≤ left a
  pub reports : length a.e.errors ≤ length b.e.errors

pub Later-refl : (a : Lexer) → Ready a → Later a a
Later-refl a r = record { ready = r; input = refl; less = omega arith; reports = omega arith }

pub Later-trans : (a b c : Lexer) → Later a b → Later b c → Later a c
Later-trans a b c l m = record {
  ready = m.ready;
  input = m.input ∙ l.input;
  less = omega (arith, l.less, m.less);
  reports = omega (arith, l.reports, m.reports);
}

-- A token taken: it was an error that has been reported, or the end, or one token less is left; when
-- the slot was full, it is the slot's.
pub record Taken (a : Lexer) (r : Token × Lexer) : Type 0 where
  pub slot : r.1.has_next ≡ false
  pub same : a.has_next ≡ true → r.0 ≡ a.next
  pub outcome :
      ((r.0.kind ≡ token_err) × (0 < length r.1.e.errors))
      ⊎ (Later a r.1 × ((r.0.kind ≡ token_eof) ⊎ ((r.0.kind ≢ token_err) × (left r.1 < left a))))

stops_cases : (k : TokenKind) → (k ≡ token_err) ⊎ (k ≡ token_eof) ⊎ (ends_stream k ≡ false)
stops_cases token_err = inl refl
stops_cases token_eof = inr (inl refl)
stops_cases _ = inr (inr refl)

stream_err : (k : TokenKind) → ends_stream k ≡ false → k ≢ token_err
stream_err token_err n e = cc
stream_err _ n e = cc

spelled : (k : TokenKind) (text : List ℕ) → Spells k text → k ≢ token_err
spelled token_err text s e = s
spelled _ text s e = cc

pub Emitted-kind : (a : Lexer) (t : Token) (b : Lexer) → Emitted a t b → t.kind ≢ token_err
Emitted-kind a t b m e = elim (m.text) [
  | inl word ↦ spelled t.kind t.lexeme word.1 e
  | inr str ↦ let k = str.0 in cc
]

-- The place does not depend on the slot and the reports.
pub reslot-WellPlaced :
    (a : Lexer) (e : ErrorHandler) (full : Bool) (t : Token)
    → WellPlaced a
    → WellPlaced (record a { e = e; has_next = full; next = t })
reslot-WellPlaced a e full t w = record {
  bound = w.bound;
  inside = w.inside;
  ordered = w.ordered;
  column = w.column;
  line = w.line;
  start_line = w.start_line;
}

-- Ready with an empty slot.
emptied-Ready :
    (a : Lexer)
    → WellPlaced a
    → ends_plain a.input ≡ true
    → no_eof a.input ≡ true
    → Fresh a
    → Ready (record a { has_next = false })
emptied-Ready a w p t f = record {
  well = reslot-WellPlaced a a.e false a.next w;
  plain = p;
  text = t;
  fresh = inr f;
  reported = λ b. cc;
}

full-Taken :
    (a : Lexer) → Ready a → a.has_next ≡ true → Taken a (a.next, record a { has_next = false })
full-Taken a r h = record {
  slot = refl;
  same = λ _. refl;
  outcome = elim (stops_cases a.next.kind) [
    | inl e ↦ inl (e, r.reported (h, e))
    | inr k ↦ elim (r.fresh) [
      | inl b ↦ inl (b.1, r.reported b)
      | inr f ↦ inr (
        record {
          ready = emptied-Ready a r.well r.plain r.text f;
          input = refl;
          less = omega arith;
          reports = omega arith;
        },
        elim k [
          | inl e ↦ inl e
          | inr n ↦ inr (λ e. stream_err a.next.kind n e, rw (h, n) (omega arith))
        ],
      )
    ]
  ];
}

-- A token read afresh leaves the lexer ready.
Lexed-Later :
    (a : Lexer) (r : Token × Lexer)
    → Ready a
    → a.has_next ≡ false
    → Lexed a r
    → Fresh r.1
    → Later a r.1
Lexed-Later a r z h l f =
    let e : r.1.has_next ≡ false = l.slot ∙ h in
    record {
      ready = record {
        well = l.well;
        plain = rw (l.input) (z.plain);
        text = rw (l.input) (z.text);
        fresh = inr f;
        reported = λ b. cc;
      };
      input = l.input;
      less = rw (e, l.input) (omega (arith, l.forward));
      reports = l.reports;
    }

empty-Taken : (a : Lexer) (r : Token × Lexer) → Ready a → a.has_next ≡ false → Lexed a r → Taken a r
empty-Taken a r z h l =
    let e : r.1.has_next ≡ false = l.slot ∙ h in
    record {
      slot = e;
      same = λ full. cc;
      outcome = elim (l.outcome) [
        | inl k ↦ inl (k.0, omega (arith, k.1))
        | inr k ↦ elim k [
          | inl k ↦ elim (k.1) [
            | inl f ↦ inr (Lexed-Later a r z h l f.1, inl k.0)
            | inr x ↦ absurd (no_eof_at a.input x.0 z.text x.1)
          ]
          | inr m ↦ inr (
            Lexed-Later a r z h l m.fresh,
            let w : r.1.pos_current ≤ length r.1.input = l.well.inside in
                inr (
                  Emitted-kind a r.0 r.1 m,
                  rw (e, l.input) (omega (arith, m.behind, m.longer, w, ap length l.input)),
                ),
          )
        ]
      ];
    }

lex_next_full :
    (a : Lexer) → a.has_next ≡ true → lex_next a ≡ ok (a.next, record a { has_next = false })
unfolding lex_next
lex_next_full a h = rw h

-- A call of `lex_next` at a lexer that is ready.
pub lex_next-Taken : (a : Lexer) → Ready a → Ensures (Taken a) (lex_next a)
lex_next-Taken a r = elim (Bool-cases a.has_next) [
  | inl h ↦ rw (lex_next_full a h) (full-Taken a r h)
  | inr h ↦ elim (r.fresh) [
    | inl b ↦ cc
    | inr f ↦
        Ensures-imp (Lexed a) (Taken a) (lex_next a) (λ x l. empty-Taken a x r h l)
          (lex_next-Lexed a r.well f r.plain h)
  ]
]
