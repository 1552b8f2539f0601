-- ===== src/Parser/Sound/StmtGrammar.antt =====
-- The grammar of statements, stated without the parser.
use metagen.Base.{◌≡◌, ◌⊎◌, Option, none, some, List, [], ◌∷◌, ◌++◌}
use metagen.Lex.Token.{
  TokenKind, token_assignment, token_eq, token_neq, token_less, token_greater, token_lparen,
  token_star, token_identifier, token_begin, token_end, token_return, token_print, token_break,
  token_continue, token_if, token_then, token_else, token_while, token_do, Token,
}
use metagen.Ast.{
  TypedIdent, AstExpr, AstExprs, AstStmt, stmt_return, stmt_expr, stmt_break, stmt_continue,
  stmt_print, AstStmts,
}
use metagen.Ast.Make.{
  make_binary, make_while, make_if, make_block, make_assignment, make_stmt_list,
  stmt_list_push_back,
}
use metagen.Parser.Sound.Grammar.{Primary, Expr, Items}
use metagen.Parser.Sound.VarGrammar.{Decls}

abbrev pub IsRelation : TokenKind → Type 0
IsRelation k = (k ≡ token_eq) ⊎ (k ≡ token_neq) ⊎ (k ≡ token_less) ⊎ (k ≡ token_greater)

pub data Relation : List Token → AstExpr → Type 0 where
  compared :
      (op : Token) (ts us : List Token) (left right : AstExpr)
      → Expr 0 ts left
      → IsRelation op.kind
      → Expr 0 us right
      → Relation (ts ++ op ∷ us) (make_binary left op.kind right)

mutual
  pub data Stmt : List Token → AstStmt → Type 0 where
    while_loop :
        (word do_word : Token) (ts us : List Token) (condition : AstExpr) (body : AstStmt)
        → word.kind ≡ token_while
        → Relation ts condition
        → do_word.kind ≡ token_do
        → Stmt us body
        → Stmt (word ∷ ts ++ do_word ∷ us) (make_while condition body)
    branch :
        (word then_word : Token) (ts us vs : List Token) (condition : AstExpr) (body : AstStmt)
        (other : Option AstStmt)
        → word.kind ≡ token_if
        → Relation ts condition
        → then_word.kind ≡ token_then
        → Stmt us body
        → Else vs other
        → Stmt (word ∷ ts ++ then_word ∷ (us ++ vs)) (make_if condition body other)
    printed :
        (word : Token) (ts : List Token) (items : AstExprs)
        → word.kind ≡ token_print
        → Items ts items
        → Stmt (word ∷ ts) (stmt_print items)
    returned :
        (word : Token) (ts : List Token) (e : AstExpr)
        → word.kind ≡ token_return
        → Expr 0 ts e
        → Stmt (word ∷ ts) (stmt_return e)
    call_stmt :
        (name left_bracket : Token) (ts : List Token) (e : AstExpr)
        → name.kind ≡ token_identifier
        → left_bracket.kind ≡ token_lparen
        → Primary (name ∷ left_bracket ∷ ts) e
        → Stmt (name ∷ left_bracket ∷ ts) (stmt_expr e)
    broken : (word : Token) → word.kind ≡ token_break → Stmt (word ∷ []) stmt_break
    continued : (word : Token) → word.kind ≡ token_continue → Stmt (word ∷ []) stmt_continue
    block :
        (word end_word : Token) (ts us : List Token) (declarations : List TypedIdent)
        (stmts : AstStmts)
        → word.kind ≡ token_begin
        → Decls ts declarations
        → Stmts us stmts
        → end_word.kind ≡ token_end
        → Stmt (word ∷ ts ++ (us ++ end_word ∷ [])) (make_block declarations stmts)
    assigned :
        (first becomes : Token) (ts us : List Token) (left right : AstExpr)
        → (first.kind ≡ token_identifier) ⊎ (first.kind ≡ token_star)
        → Expr 0 (first ∷ ts) left
        → becomes.kind ≡ token_assignment
        → Expr 0 us right
        → Stmt (first ∷ ts ++ becomes ∷ us) (make_assignment left right)

  pub data Else : List Token → Option AstStmt → Type 0 where
    no_else : Else [] none
    else_branch :
        (word : Token) (ts : List Token) (s : AstStmt)
        → word.kind ≡ token_else
        → Stmt ts s
        → Else (word ∷ ts) (some s)

  pub data Stmts : List Token → AstStmts → Type 0 where
    first_stmt : (ts : List Token) (s : AstStmt) → Stmt ts s → Stmts ts (make_stmt_list s)
    next_stmt :
        (ts us : List Token) (stmts : AstStmts) (s : AstStmt)
        → Stmts ts stmts
        → Stmt us s
        → Stmts (ts ++ us) (stmt_list_push_back stmts s)
