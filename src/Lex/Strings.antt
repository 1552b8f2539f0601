-- ===== src/Lex/Strings.antt =====
-- `lex_str` and `lex_comment` (compiler/lex.c) against the description of tokens in Lex/Spelling.
use metagen.Base.{
  ◌≤◌, ℕ, zero, suc, ◌+◌, ◌<◌, ◌≡◌, ◌∙◌, inl, inr, ◌⊎◌, sym, ap, refl, Bool, true, false, List, [],
  ◌∷◌, ◌++◌, append-nil, append_assoc, ◌≢◌, get_or, ◌||◌, arith, length, length-append, some, ◌==◌,
  Bool-cases, Outcome, Ensures, Ensures-imp, if_split, String,
}
use metagen.Diagnostics.{error_at, append_err}
use metagen.Lex.Token.{token_err, token_str, Token, bare_token}
use metagen.Lex.State.{Lexer, eof, peek, next, emit, reset_token_ctx}
use metagen.Lex.Rules.{report, loop_fuel, finish_str, str_run, lex_str, comment_run, lex_comment}
use metagen.Lex.Position.{WellPlaced, Moved, Moved-refl, Moved-trans, Read, next_end, next-Read}
use metagen.Lex.Spelling.{
  Fresh, Lexed, Lexed-skip, Quoted, closed, escaped, plain, CommentTo, Skips, StopsAt, stop,
  comment,
}
use metagen.Lex.Emit.{emit_str-Lexed, Moved-reset}

-- `next` reads a byte and moves on, or stays at the end of the input.
pub next-Moved :
    (b : Lexer)
    → WellPlaced b
    → Moved b (next b).1
      × ((((next b).0 ≡ eof) × (peek (next b).1 ≡ 0) × (peek b ≡ 0))
          ⊎ (((next b).1.pos_current ≡ suc b.pos_current) × ((next b).0 ≡ peek b) × (peek b ≢ 0)))
next-Moved b w = elim (Bool-cases (peek b == 0)) [
  | inl z ↦
      let e : next b ≡ (eof, b) = next_end b (ground arith) in
      let at_zero : peek b ≡ 0 = ground arith in rw e (Moved-refl b w, inl (refl, at_zero, at_zero))
  | inr n ↦
      let some_byte : peek b ≢ 0 = ground arith in
      let r = next-Read b w some_byte in (r.moved, inr (r.step, r.byte, some_byte))
]

report-adds : (b : Lexer) (msg : String) → length (report b msg).e.errors ≡ suc (length b.e.errors)
unfolding error_at append_err
report-adds b msg = omega (
  arith,
  length-append b.e.errors (record { line = some b.current.l; name = []; msg = msg } ∷ []),
)

report-Moved : (a b : Lexer) (msg : String) → Moved a b → Moved a (report b msg)
report-Moved a b msg m = let w = m.well in let one = report-adds b msg in ground (arith, m.reports)

pub failed-Lexed :
    (a b : Lexer) (msg : String) → Moved a b → Lexed a (bare_token token_err, report b msg)
failed-Lexed a b msg m =
    let n = report-Moved a b msg m in
    record {
      well = n.well;
      input = n.input;
      slot = n.slot;
      forward = n.forward;
      reports = omega (arith, n.reports);
      outcome = inl (refl, omega (arith, m.reports, report-adds b msg));
    }

-- The bytes from `from` up to `p` stand for `sb` inside of a string that is still open.
abbrev Prefix : List ℕ → ℕ → ℕ → List ℕ → Type 0
Prefix xs from p sb = (q : ℕ) (rest : List ℕ) → Quoted xs p q rest → Quoted xs from q (sb ++ rest)

Prefix-plain :
    (xs : List ℕ) (from p c : ℕ) (sb : List ℕ)
    → Prefix xs from p sb
    → get_or xs p 0 ≡ c
    → c ≢ 0
    → c ≢ b'"'
    → c ≢ b'\n'
    → c ≢ b'\\'
    → Prefix xs from (suc p) (sb ++ c ∷ [])
Prefix-plain xs from p c sb k e z x y w q rest h =
    rw (append_assoc sb (c ∷ []) rest) (k q (c ∷ rest) (plain p q c rest e z x y w h))

Prefix-escaped :
    (xs : List ℕ) (from p d : ℕ) (sb : List ℕ)
    → Prefix xs from p sb
    → get_or xs p 0 ≡ b'\\'
    → get_or xs (suc p) 0 ≡ d
    → d ≡ b'"'
    → Prefix xs from (suc (suc p)) (sb ++ d ∷ [])
Prefix-escaped xs from p d sb k e g same q rest h =
    rw (same, append_assoc sb (b'"' ∷ []) rest)
      (k q (b'"' ∷ rest) (escaped p q rest e (g ∙ same) h))

Prefix-closed :
    (xs : List ℕ) (from p : ℕ) (sb : List ℕ)
    → Prefix xs from p sb
    → get_or xs p 0 ≡ b'"'
    → Quoted xs from (suc p) sb
Prefix-closed xs from p sb k e = rw (append-nil sb) at (k (suc p) [] (closed p e))

finish_str-Lexed :
    (a b : Lexer) (had_error : Bool) (sb : List ℕ)
    → Fresh a
    → Moved a b
    → a.pos_current < b.pos_current
    → (had_error ≡ true → length a.e.errors < length b.e.errors)
    → peek a ≡ b'"'
    → (had_error ≡ false → Quoted a.input (suc a.pos_current) b.pos_current sb)
    → Lexed a (finish_str had_error sb b)
unfolding finish_str reset_token_ctx
finish_str-Lexed a b true sb f m l had o k =
    let w = m.well in
    let (well, fresh) = Moved-reset a b m in
    record {
      well = well;
      input = m.input;
      slot = m.slot;
      forward = m.forward;
      reports = m.reports;
      outcome = inl (refl, had refl);
    }
finish_str-Lexed a b false sb f m l had o k =
    emit_str-Lexed a b sb token_str f m l (inr (refl, o, k refl))

str_run-Lexed :
    (f : ℕ) (a b : Lexer) (had_error : Bool) (sb : List ℕ)
    → Fresh a
    → Moved a b
    → a.pos_current < b.pos_current
    → length b.input < f + b.pos_current
    → (had_error ≡ true → length a.e.errors < length b.e.errors)
    → peek a ≡ b'"'
    → (had_error ≡ false → Prefix a.input (suc a.pos_current) b.pos_current sb)
    → Ensures (Lexed a) (str_run f had_error sb b)
unfolding str_run
str_run-Lexed zero a b had_error sb fr m l h had o k =
    let w = m.well in absurd (omega (arith, w.inside))
str_run-Lexed (suc f) a b had_error sb fr m l h had o k =
    let from : ℕ = suc a.pos_current in
    let (n, one) = next-Moved b (m.well) in
    let (n', two) = next-Moved (next b).1 (n.well) in
    let to_read = Moved-trans a b (next b).1 m n in
    let to_escaped = Moved-trans a (next b).1 (next (next b).1).1 to_read n' in
    if_split (Ensures (Lexed a)) ((next b).0 == b'"')
      (λ quote.
        let moved : (next b).1.pos_current ≡ suc (b.pos_current) = ground arith in
        let byte : get_or a.input b.pos_current 0 ≡ b'"' = rw (← m.input) (ground arith) in
        finish_str-Lexed a (next b).1 had_error sb fr to_read (omega (arith, n.forward))
          (λ e. omega (arith, had e, n.reports)) o
          (λ e. rw (moved) (Prefix-closed a.input from b.pos_current sb (k e) byte)))
      λ no_quote.
        if_split (Ensures (Lexed a)) ((next b).0 == eof || (next b).0 == b'\n')
          (λ stop. failed-Lexed a (next b).1 _ to_read)
          λ more.
            let moved : (next b).1.pos_current ≡ suc (b.pos_current) = ground arith in
            let here : (next b).0 ≡ peek b = ground arith in
            let byte : get_or a.input b.pos_current 0 ≡ (next b).0 = rw (← m.input) (sym here) in
            let enough : length (next b).1.input < f + (next b).1.pos_current =
              omega (arith, ap length n.input) in
            if_split (Ensures (Lexed a)) ((next b).0 == b'\\')
              (λ slash.
                if_split (Ensures (Lexed a)) ((next (next b).1).0 == b'"')
                  (λ known.
                    let moved' : (next (next b).1).1.pos_current ≡ suc (suc (b.pos_current)) =
                      ground arith in
                    let byte' : get_or a.input (suc b.pos_current) 0 ≡ (next (next b).1).0 =
                      rw (← to_read.input, ← moved) (ground arith) in
                    str_run-Lexed f a (next (next b).1).1 had_error (sb ++ (next (next b).1).0 ∷ [])
                      fr to_escaped (omega (arith, n.forward, n'.forward))
                      (omega (arith, ap length n'.input, n'.forward))
                      (λ e. omega (arith, had e, n.reports, n'.reports)) o
                      (λ e. rw (moved') (
                        Prefix-escaped a.input from b.pos_current (next (next b).1).0 sb (k e)
                          (byte ∙ ground arith) byte' (ground arith))))
                  λ unknown.
                    str_run-Lexed f a
                      (report (next (next b).1).1 "Unknown escape character inside string literal")
                      true sb fr (report-Moved a (next (next b).1).1 _ to_escaped)
                      (omega (arith, n.forward, n'.forward))
                      (omega (arith, ap length n'.input, n'.forward))
                      (λ e. omega (
                        arith,
                        to_escaped.reports,
                        report-adds (next (next b).1).1
                            "Unknown escape character inside string literal",
                      ))
                      o (λ e. cc))
              λ other.
                str_run-Lexed f a (next b).1 had_error (sb ++ (next b).0 ∷ []) fr to_read
                  (omega (arith, n.forward)) enough (λ e. omega (arith, had e, n.reports)) o
                  (λ e. rw (moved) (
                    Prefix-plain a.input from b.pos_current (next b).0 sb (k e) byte (ground arith)
                      (ground arith) (ground arith) (ground arith)))

pub lex_str-Lexed :
    (a b : Lexer) (c : ℕ) → Fresh a → Read a c b → c ≡ b'"' → Ensures (Lexed a) (lex_str b)
unfolding lex_str
lex_str-Lexed a b c f r e =
    str_run-Lexed (loop_fuel b) a b false [] f r.moved (omega (arith, r.step)) (omega arith)
      (λ e. cc) (sym r.byte ∙ e) (λ _. rw (r.step) (λ q rest h. h))

-- `s` stands fresh behind blanks or comments that follow `a`.
pub record Skipped (a s : Lexer) : Type 0 where
  pub well : WellPlaced s
  pub fresh : Fresh s
  pub input : s.input ≡ a.input
  pub slot : s.has_next ≡ a.has_next
  pub ahead : a.pos_current < s.pos_current
  pub reports : length a.e.errors ≤ length s.e.errors

CommentTo-suc :
    (a : Lexer) (n : ℕ)
    → CommentTo a.input a.pos_current n
    → get_or a.input n 0 ≢ b'\n'
    → CommentTo a.input a.pos_current (suc n)
CommentTo-suc a n (x, y, l, none_yet) h = (
  x,
  y,
  omega arith,
  λ i u v. elim (Bool-cases (i == n)) [
    | inl same ↦ let e : i ≡ n = ground arith in rw e h
    | inr other ↦ none_yet i u (ground arith)
  ],
)

-- `again` keeps the promise of `lex_next` behind `a`.
module _ (a : Lexer) (again : Lexer → Outcome (Token × Lexer))
    (again-Lexed : (s : Lexer) → Skipped a s → Ensures (Lexed s) (again s)) where
  pub again_reset :
      (b : Lexer)
      → Moved a b
      → a.pos_current < b.pos_current
      → Skips a.input a.pos_current b.pos_current
      → Ensures (Lexed a) (again (reset_token_ctx b))
  unfolding reset_token_ctx
  again_reset b m l skips =
      let (well, fresh) = Moved-reset a b m in
      let s = reset_token_ctx b in
      Ensures-imp (Lexed s) (Lexed a) (again s)
        (λ r k. Lexed-skip a s r m.input m.slot m.forward skips m.reports k)
        (again-Lexed s (record {
          well = well;
          fresh = fresh;
          input = m.input;
          slot = m.slot;
          ahead = l;
          reports = m.reports;
        }))

  comment_run-Lexed :
      (f : ℕ) (b : Lexer)
      → Moved a b
      → CommentTo a.input a.pos_current b.pos_current
      → length b.input < f + b.pos_current
      → Ensures (Lexed a) (comment_run again f b)
  unfolding comment_run emit reset_token_ctx
  comment_run-Lexed zero b m l h = let w = m.well in absurd (omega (arith, w.inside))
  comment_run-Lexed (suc f) b m l h =
      let (n, one) = next-Moved b (m.well) in
      let to_read = Moved-trans a b (next b).1 m n in
      let started : suc (a.pos_current) < b.pos_current = l.2 in
      let further : a.pos_current < (next b).1.pos_current = omega (arith, n.forward) in
      if_split (Ensures (Lexed a)) ((next b).0 == b'\n')
        (λ newline.
          let moved : (next b).1.pos_current ≡ suc (b.pos_current) = ground arith in
          again_reset (next b).1 to_read further (
            rw (moved) (
              comment a.pos_current b.pos_current (suc (b.pos_current)) l
                (rw (← m.input) (ground arith)) (stop (suc (b.pos_current))))))
        λ inside.
          if_split (Ensures (Lexed a)) ((next b).0 == eof)
            (λ end_of_input.
              let (well, fresh) = Moved-reset a (next b).1 to_read in
              let stops : StopsAt a.input b.pos_current =
                rw (← m.input) (elim one [
                  | inl last ↦ inl last.2
                  | inr byte ↦ inr (sym byte.1 ∙ ground arith)
                ]) in
              record {
                well = well;
                input = to_read.input;
                slot = to_read.slot;
                forward = to_read.forward;
                reports = to_read.reports;
                outcome = inr (
                    inl (
                      refl,
                      elim one [
                        | inl last ↦ inl (last.1, fresh)
                        | inr byte ↦ inr (b.pos_current, rw (← m.input) (sym byte.1 ∙ ground arith))
                      ],
                      (a.pos_current, stop a.pos_current, inr (b.pos_current, l, stops)),
                    ));
              })
            λ more.
              let moved : (next b).1.pos_current ≡ suc (b.pos_current) = ground arith in
              let here : (next b).0 ≡ peek b = ground arith in
              let byte : get_or a.input b.pos_current 0 ≢ b'\n' = rw (← m.input) (ground arith) in
              comment_run-Lexed f (next b).1 to_read
                (rw (moved) (CommentTo-suc a b.pos_current l byte))
                (omega (arith, ap length n.input))

  pub lex_comment-Lexed :
      (b : Lexer)
      → Moved a b
      → CommentTo a.input a.pos_current b.pos_current
      → Ensures (Lexed a) (lex_comment again b)
  unfolding lex_comment
  lex_comment-Lexed b m l = comment_run-Lexed (loop_fuel b) b m l (omega arith)
