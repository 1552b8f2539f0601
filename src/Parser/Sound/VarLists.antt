-- ===== src/Parser/Sound/VarLists.antt =====
-- Types and variable lists follow the grammar.
use metagen.Base.{
  ℕ, zero, suc, ◌+◌, ◌-◌, ◌^◌, ◌<◌, ◌≡◌, refl, ◌∙◌, arith, Bool, true, false, List, [], ◌∷◌, ◌++◌,
  append-nil, append_assoc, if_split, Outcome, ◌>>=◌, Runs, Runs-imp, Runs-bind, Runs-both,
}
use metagen.Lex.Token.{
  TokenKind, token_num, token_colon, token_comma, token_caret, token_lbracket, token_rbracket,
  token_identifier, token_var, Token, is_kind, is_kind_eq,
}
use metagen.Str.{str_view_to_u32}
use metagen.Ast.{AstTypeInfo, TypedIdent}
use metagen.Parser.State.{Parser, match_token, consume_or_err, parse_fuel}
use metagen.Parser.Stmt.{
  caret_run, parse_elements, plain_type, parse_array, parse_type, parse_type_if, variable_run,
  parse_variable_list, decl_run, parse_local_decl_list, parse_decls,
}
use metagen.Parser.Runs.Tokens.{
  Reads, tokens_left, After-Reads, After-left, After-below, shown_read, kind_not_eof, Matched,
  match_token-Runs,
}
use metagen.Parser.Runs.Operands.{enough}
use metagen.Parser.Sound.VarGrammar.{
  Carets, no_caret, caret, Elements, open_length, fixed_length, TypeTail, plain, array,
  empty_brackets, TypeOf, typed_as, TypeIf, Vars, last_var, then_var, Decls, no_decl, decl,
}
use metagen.Parser.Sound.Trail.{
  Trail, Trail-imp, Trail-then, Trail-refl, error_parse-Trail, Gives, Gives-bind, next_bind,
  peek_bind, read_kind, Consumed, consume_or_err-Gives, MaybeToken, match_token-Gives,
}

-- A token matched, with one token less left.
pub match_loop {κ} :
    {B : Type κ} (p : Parser) (kind : TokenKind) (K : List Token → B → Type 0)
    (f : Bool × Parser → Outcome (B × Parser))
    → Reads p
    → ((r : Bool × Parser)
        → Matched p kind r
        → Runs
            (Gives r.1 (λ us b. (ts : List Token) → MaybeToken kind ts r.0 → K (ts ++ us) b))
            (f r))
    → Runs (Gives p K) (match_token p kind >>= f)
match_loop p kind K f r k =
    Runs-bind (λ t. Gives p (MaybeToken kind) t × Matched p kind t) (Gives p K) (match_token p kind)
      f
      (Runs-both (Gives p (MaybeToken kind)) (Matched p kind) (match_token p kind)
        (match_token-Gives p kind r) (match_token-Runs p kind r))
      λ t a.
        Runs-imp (Gives t.1 (λ us b. (ts : List Token) → MaybeToken kind ts t.0 → K (ts ++ us) b))
          (Gives p K) (f t)
          (λ s b. Trail-then p t.1 s.1 (λ ts. MaybeToken kind ts t.0) (λ ts. K ts s.0) a.0 b)
          (k t a.1)

caret_run-Gives :
    (g n : ℕ) (p : Parser)
    → Reads p
    → tokens_left p < g
    → Runs
        (Gives p (λ us m. (ts : List Token) → Carets ts n → Carets (ts ++ us) m))
        (caret_run g n p)
unfolding caret_run
caret_run-Gives zero n p r l = omega arith
caret_run-Gives (suc g) n p r l =
    let K : List Token → ℕ → Type 0 =
      λ us m. (ts : List Token) → Carets ts n → Carets (ts ++ us) m in
    match_loop p token_caret K _ r λ t a.
      let b = a.after in
      let w = After-Reads p t.1 b in
      let H : List Token → ℕ → Type 0 =
        λ us m. (ts : List Token) → MaybeToken token_caret ts t.0 → K (ts ++ us) m in
      if_split (Runs (Gives t.1 H)) t.0
        (λ e.
          let c = a.fewer e (λ x. cc) in
          Runs-imp (Gives t.1 (λ us m. (ts : List Token) → Carets ts (n + 1) → Carets (ts ++ us) m))
            (Gives t.1 H) (caret_run g (n + 1) t.1)
            (λ z.
              Trail-imp t.1 z.1
                (λ us. (ts : List Token) → Carets ts (n + 1) → Carets (ts ++ us) z.0)
                (λ us. H us z.0)
                (λ us q vs x ts y.
                  let o = x.0 e in
                  rw (← append_assoc ts vs us, o.1) (q (ts ++ o.0 ∷ []) (caret o.0 ts n y o.2))))
            (caret_run-Gives g (n + 1) t.1 w (omega (arith, c))))
        (λ e.
          Trail-refl t.1 (λ us. H us n) w (λ vs x ts y. rw (append-nil vs, x.1 e, append-nil ts) y))

parse_elements-Gives : (p : Parser) → Reads p → Runs (Gives p Elements) (parse_elements p)
unfolding parse_elements
parse_elements-Gives p r = peek_bind p Elements _ r λ t a.
    let u = After-Reads p t.1 a.after in
    if_split (Runs (Gives t.1 Elements)) (is_kind t.0.kind token_num)
      (λ h. next_bind t.1 Elements _ u λ s b.
        let v = After-Reads t.1 s.1 b.after in
        let G : List Token → Type 0 = λ ts. Elements (s.0 ∷ ts) (str_view_to_u32 t.0.lexeme).0 in
        if_split (λ q. Trail s.1 q G) (str_view_to_u32 t.0.lexeme).1
          (λ k.
            Trail-refl s.1 G v
              (rw (b.same a.full ∙ a.token) (fixed_length t.0 (is_kind_eq t.0.kind token_num h) k)))
          (λ _. error_parse-Trail s.1 "Could not be parsed as a u32" t.0 G v))
      (λ _. Trail-refl t.1 (λ ts. Elements ts (2 ^ 32 - 1)) u open_length)

-- Behind a bracket `o`.
abbrev Bracketed : Bool → List ℕ → ℕ → List Token → AstTypeInfo → Type 0
Bracketed allow name n ts info =
    (o : Token) → o.kind ≡ token_lbracket → TypeTail allow name n (o ∷ ts) info

parse_array-Gives :
    (allow : Bool) (name : Token) (n : ℕ) (p : Parser)
    → Reads p
    → Runs (Gives p (Bracketed allow name.lexeme n)) (parse_array allow name n p)
unfolding parse_array
parse_array-Gives true name n p r =
    let K : List Token → AstTypeInfo → Type 0 = Bracketed true name.lexeme n in
    Gives-bind p Elements K (parse_elements p) _ (parse_elements-Gives p r) λ e a.
      let H : List Token → AstTypeInfo → Type 0 =
        λ us x. (ts : List Token) → Elements ts e.0 → K (ts ++ us) x in
      Gives-bind e.1 (Consumed token_rbracket) H (consume_or_err e.1 token_rbracket _) _
        (consume_or_err-Gives e.1 token_rbracket _ (After-Reads p e.1 a))
        λ s b.
          Trail-refl s.1
            (λ us.
              (cs : List Token)
              → Consumed token_rbracket cs s.0
              → H (cs ++ us) (record {
                name = name.lexeme;
                is_array = true;
                elements = e.0;
                pointer_indirection = n;
              }))
            (After-Reads e.1 s.1 b)
            (λ cs c ts x o h. rw (c.0) (array name.lexeme n e.0 o s.0 ts h x c.1))
parse_array-Gives false name n p r =
    let K : List Token → AstTypeInfo → Type 0 = Bracketed false name.lexeme n in
    Gives-bind p (Consumed token_rbracket) K (consume_or_err p token_rbracket _) _
      (consume_or_err-Gives p token_rbracket _ r)
      λ s b.
        Trail-refl s.1
          (λ us.
            (cs : List Token)
            → Consumed token_rbracket cs s.0
            → K (cs ++ us) (plain_type name.lexeme n))
          (After-Reads p s.1 b) (λ cs c o h. rw (c.0) (empty_brackets name.lexeme n o s.0 h c.1))

parse_type-Gives :
    (p : Parser) (allow : Bool) → Reads p → Runs (Gives p (TypeOf allow)) (parse_type p allow)
unfolding parse_type
parse_type-Gives p allow r =
    Gives-bind p (Consumed token_colon) (TypeOf allow) (consume_or_err p token_colon _) _
      (consume_or_err-Gives p token_colon _ r)
      λ c a.
        let K : List Token → AstTypeInfo → Type 0 =
          λ us x. (ts : List Token) → Consumed token_colon ts c.0 → TypeOf allow (ts ++ us) x in
        Gives-bind c.1 (λ us m. (ts : List Token) → Carets ts 0 → Carets (ts ++ us) m) K
          (caret_run (parse_fuel c.1) 0 c.1) _
          (caret_run-Gives (parse_fuel c.1) 0 c.1 (After-Reads p c.1 a) (enough c.1))
          λ n b.
            let H : List Token → AstTypeInfo → Type 0 = λ us x.
              (ts : List Token)
              → ((vs : List Token) → Carets vs 0 → Carets (vs ++ ts) n.0)
              → K (ts ++ us) x in
            Gives-bind n.1 (Consumed token_identifier) H (consume_or_err n.1 token_identifier _) _
              (consume_or_err-Gives n.1 token_identifier _ (After-Reads c.1 n.1 b))
              λ name d.
                let J : List Token → AstTypeInfo → Type 0 = λ us x.
                  (ts : List Token) → Consumed token_identifier ts name.0 → H (ts ++ us) x in
                let joined : (us : List Token) (x : AstTypeInfo)
                    → TypeTail allow name.0.lexeme n.0 us x
                    → J us x =
                  λ us x tail ns m ts cs os o.
                    rw (o.0, m.0)
                      (typed_as allow c.0 name.0 ts us n.0 x o.1 (cs [] no_caret) m.1 tail) in
                Gives-bind name.1 (MaybeToken token_lbracket) J (match_token name.1 token_lbracket)
                  _ (match_token-Gives name.1 token_lbracket (After-Reads n.1 name.1 d))
                  λ m k.
                    let u = After-Reads name.1 m.1 k in
                    let L : List Token → AstTypeInfo → Type 0 = λ us x.
                      (ts : List Token) → MaybeToken token_lbracket ts m.0 → J (ts ++ us) x in
                    if_split (Runs (Gives m.1 L)) m.0
                      (λ e.
                        Runs-imp (Gives m.1 (Bracketed allow name.0.lexeme n.0)) (Gives m.1 L)
                          (parse_array allow name.0 n.0 m.1)
                          (λ z.
                            Trail-imp m.1 z.1 (λ us. Bracketed allow name.0.lexeme n.0 us z.0)
                              (λ us. L us z.0)
                              (λ us g ts x.
                                let o = x.0 e in rw (o.1) (joined (o.0 ∷ us) z.0 (g o.0 o.2))))
                          (parse_array-Gives allow name.0 n.0 m.1 u))
                      (λ e.
                        Trail-refl m.1 (λ us. L us (plain_type name.0.lexeme n.0)) u
                          (λ ts x. rw (x.1 e) (
                            joined [] (plain_type name.0.lexeme n.0)
                              (plain allow name.0.lexeme n.0))))

parse_type_if-Gives :
    (typed allow : Bool) (p : Parser)
    → Reads p
    → Runs (Gives p (TypeIf typed allow)) (parse_type_if typed allow p)
unfolding parse_type_if
parse_type_if-Gives true allow p r = parse_type-Gives p allow r
parse_type_if-Gives false allow p r =
    Trail-refl p (λ ts. TypeIf false allow ts (plain_type [] 0)) r (refl, refl)

variable_run-Gives :
    (g : ℕ) (allow typed : Bool) (p : Parser)
    → Reads p
    → tokens_left p < g
    → Runs (Gives p (Vars allow typed)) (variable_run g allow typed p)
unfolding variable_run
variable_run-Gives zero allow typed p r l = omega arith
variable_run-Gives (suc g) allow typed p r l =
    let V : List Token → List TypedIdent → Type 0 = Vars allow typed in
    Gives-bind p (Consumed token_identifier) V (consume_or_err p token_identifier _) _
      (consume_or_err-Gives p token_identifier _ r)
      λ i a.
        let K : List Token → List TypedIdent → Type 0 =
          λ us x. (ts : List Token) → Consumed token_identifier ts i.0 → V (ts ++ us) x in
        Gives-bind i.1 (TypeIf typed allow) K (parse_type_if typed allow i.1) _
          (parse_type_if-Gives typed allow i.1 (After-Reads p i.1 a))
          λ t b.
            let H : List Token → List TypedIdent → Type 0 =
              λ us x. (ts : List Token) → TypeIf typed allow ts t.0 → K (ts ++ us) x in
            peek_bind t.1 H _ (After-Reads i.1 t.1 b) λ n k.
              let u = After-Reads t.1 n.1 k.after in
              if_split (Runs (Gives n.1 H)) (is_kind n.0.kind token_comma)
                (λ h. next_bind n.1 H _ u λ s m.
                  let c = shown_read t.1 n s k m (kind_not_eof n.0.kind token_comma h (λ e. cc)) in
                  let below =
                    After-below t.1 n.1 (suc g) k.after
                      (After-below i.1 t.1 (suc g) b (After-below p i.1 (suc g) a l)) in
                  let v = After-Reads n.1 s.1 m.after in
                  Gives-bind s.1 V (λ us x. H (s.0 ∷ us) x) (variable_run g allow typed s.1) _
                    (variable_run-Gives g allow typed s.1 v (omega (arith, c, below)))
                    λ rest d.
                      Trail-refl rest.1
                        (λ us.
                          (vs : List Token)
                          → V vs rest.0
                          → H (s.0 ∷ vs ++ us)
                              (record { name = i.0.lexeme; ast_type_info = t.0 } ∷ rest.0))
                        (After-Reads s.1 rest.1 d)
                        (λ vs y ts x os o.
                          rw (o.0, append-nil vs)
                            (then_var allow typed i.0 s.0 ts vs t.0 rest.0 o.1 x
                              (read_kind t.1 n s token_comma k m h) y)))
                (λ _.
                  Trail-refl n.1
                    (λ us. H us (record { name = i.0.lexeme; ast_type_info = t.0 } ∷ [])) u
                    (λ ts x os o. rw (o.0, append-nil ts) (last_var allow typed i.0 ts t.0 o.1 x)))

pub parse_variable_list-Gives :
    (p : Parser) (allow typed : Bool)
    → Reads p
    → Runs (Gives p (Vars allow typed)) (parse_variable_list p allow typed)
unfolding parse_variable_list
parse_variable_list-Gives p allow typed r =
    variable_run-Gives (parse_fuel p) allow typed p r (enough p)

decl_run-Gives :
    (g : ℕ) (identifiers : List TypedIdent) (p : Parser)
    → Reads p
    → tokens_left p < g
    → Runs
        (Gives p (λ us x. (ts : List Token) → Decls ts identifiers → Decls (ts ++ us) x))
        (decl_run g identifiers p)
unfolding decl_run
decl_run-Gives zero identifiers p r l = omega arith
decl_run-Gives (suc g) identifiers p r l =
    let K : List Token → List TypedIdent → Type 0 =
      λ us x. (ts : List Token) → Decls ts identifiers → Decls (ts ++ us) x in
    match_loop p token_var K _ r λ t a.
      let u = After-Reads p t.1 a.after in
      let H : List Token → List TypedIdent → Type 0 =
        λ us x. (ts : List Token) → MaybeToken token_var ts t.0 → K (ts ++ us) x in
      if_split (Runs (Gives t.1 H)) t.0
        (λ e.
          let c = a.fewer e (λ x. cc) in
          Gives-bind t.1 (Vars false true) H (parse_variable_list t.1 false true) _
            (parse_variable_list-Gives t.1 false true u)
            λ v b.
              let x = After-left t.1 v.1 b in
              let next = identifiers ++ v.0 in
              Runs-imp (Gives v.1 (λ us z. (ts : List Token) → Decls ts next → Decls (ts ++ us) z))
                (Gives v.1 (λ us z. (vs : List Token) → Vars false true vs v.0 → H (vs ++ us) z))
                (decl_run g next v.1)
                (λ z.
                  Trail-imp v.1 z.1 (λ us. (ts : List Token) → Decls ts next → Decls (ts ++ us) z.0)
                    (λ us. (vs : List Token) → Vars false true vs v.0 → H (vs ++ us) z.0)
                    (λ us q vs y ws m ts d.
                      let o = m.0 e in
                      rw (o.1, ← append_assoc ts (o.0 ∷ vs) us)
                        (q (ts ++ o.0 ∷ vs) (decl o.0 ts vs identifiers v.0 d o.2 y))))
                (decl_run-Gives g next v.1 (After-Reads t.1 v.1 b) (omega (arith, c, x))))
        (λ e. Trail-refl t.1 (λ us. H us identifiers) u (λ vs m ts d. rw (m.1 e, append-nil ts) d))

-- Behind the word `var`.
abbrev DeclsBehind : List Token → List TypedIdent → Type 0
DeclsBehind ts x = (word : Token) → word.kind ≡ token_var → Decls (word ∷ ts) x

parse_local_decl_list-Gives :
    (p : Parser) → Reads p → Runs (Gives p DeclsBehind) (parse_local_decl_list p)
unfolding parse_local_decl_list
parse_local_decl_list-Gives p r =
    Gives-bind p (Vars false true) DeclsBehind (parse_variable_list p false true) _
      (parse_variable_list-Gives p false true r)
      λ v b.
        let H : List Token → List TypedIdent → Type 0 =
          λ us z. (vs : List Token) → Vars false true vs v.0 → DeclsBehind (vs ++ us) z in
        Runs-imp (Gives v.1 (λ us z. (ts : List Token) → Decls ts v.0 → Decls (ts ++ us) z))
          (Gives v.1 H) (decl_run (parse_fuel v.1) v.0 v.1)
          (λ z.
            Trail-imp v.1 z.1 (λ us. (ts : List Token) → Decls ts v.0 → Decls (ts ++ us) z.0)
              (λ us. H us z.0)
              (λ us q vs y word h. q (word ∷ vs) (decl word [] vs [] v.0 no_decl h y)))
          (decl_run-Gives (parse_fuel v.1) v.0 v.1 (After-Reads p v.1 b) (enough v.1))

pub parse_decls-Gives : (p : Parser) → Reads p → Runs (Gives p Decls) (parse_decls p)
unfolding parse_decls
parse_decls-Gives p r = match_loop p token_var Decls _ r λ t a.
    let u = After-Reads p t.1 a.after in
    let H : List Token → List TypedIdent → Type 0 =
      λ us x. (ts : List Token) → MaybeToken token_var ts t.0 → Decls (ts ++ us) x in
    if_split (Runs (Gives t.1 H)) t.0
      (λ e.
        Runs-imp (Gives t.1 DeclsBehind) (Gives t.1 H) (parse_local_decl_list t.1)
          (λ z.
            Trail-imp t.1 z.1 (λ us. DeclsBehind us z.0) (λ us. H us z.0)
              (λ us g ts m. let o = m.0 e in rw (o.1) (g o.0 o.2)))
          (parse_local_decl_list-Gives t.1 u))
      (λ e. Trail-refl t.1 (λ us. H us []) u (λ ts m. rw (m.1 e) no_decl))
