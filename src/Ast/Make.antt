-- ===== src/Ast/Make.antt =====
-- The constructors of tree nodes (compiler/ast.c). A field that a constructor leaves unset is the one
-- that a later pass fills in.
use metagen.Base.{ℕ, Bool, List, [], ◌∷◌, ◌++◌, Option, none, some}
use metagen.Lex.Token.{TokenKind, token_num, token_str, token_null, Token}
use metagen.Ast.{
  LiteralType, lit_str, lit_ident, lit_num, lit_null, AstTypeInfo, TypedIdent, AstExpr, expr_unary,
  expr_binary, expr_literal, expr_call, AstExprs, nil, cons, AstStmt, stmt_while, stmt_if,
  stmt_if_else, stmt_block, stmt_assignment, AstStmts, none_left, then_stmt, AstFunc, AstStruct,
  AstEnum, AstRoot,
}

abbrev pub make_unary : AstExpr → TokenKind → AstExpr
make_unary expr op = expr_unary none op expr

abbrev pub make_binary : AstExpr → TokenKind → AstExpr → AstExpr
make_binary left op right = expr_binary none left op right

abbrev pub literal_type : TokenKind → LiteralType
literal_type token_num = lit_num
literal_type token_str = lit_str
literal_type token_null = lit_null
literal_type _ = lit_ident

abbrev pub make_literal : Token → AstExpr
make_literal token = expr_literal none none (literal_type token.kind) token.lexeme

abbrev pub make_call : Bool → List ℕ → AstExprs → AstExpr
make_call is_comptime identifier args = expr_call none is_comptime identifier args

abbrev pub make_while : AstExpr → AstStmt → AstStmt
make_while condition body = stmt_while condition body

abbrev pub make_if : AstExpr → AstStmt → Option AstStmt → AstStmt
make_if condition then_branch none = stmt_if condition then_branch
make_if condition then_branch (some else_branch) = stmt_if_else condition then_branch else_branch

abbrev pub make_block : List TypedIdent → AstStmts → AstStmt
make_block declarations stmts = stmt_block declarations stmts 0 none

abbrev pub make_assignment : AstExpr → AstExpr → AstStmt
make_assignment left right = stmt_assignment left right

abbrev pub make_func : List ℕ → List TypedIdent → Option AstStmt → AstTypeInfo → AstFunc
make_func name params body return_type = record {
  name = name;
  parameters = params;
  return_type = return_type;
  body = body;
}

abbrev pub make_struct : List ℕ → List TypedIdent → AstStruct
make_struct name members = record { name = name; members = members }

abbrev pub make_enum : List ℕ → List TypedIdent → AstEnum
make_enum name values = record { name = name; members = values }

-- `make_list` and `ast_list_push_back` on a list of expressions, of statements, of other nodes.
abbrev pub make_list : AstExpr → AstExprs
make_list head = cons head nil

abbrev pub ast_list_push_back : AstExprs → AstExpr → AstExprs
ast_list_push_back nil node = cons node nil
ast_list_push_back (cons e list) node = cons e (ast_list_push_back list node)

abbrev pub make_stmt_list : AstStmt → AstStmts
make_stmt_list head = then_stmt head none_left

abbrev pub stmt_list_push_back : AstStmts → AstStmt → AstStmts
stmt_list_push_back none_left node = then_stmt node none_left
stmt_list_push_back (then_stmt s list) node = then_stmt s (stmt_list_push_back list node)

abbrev pub node_list_push_back {ℓ} : {A : Type ℓ} → List A → A → List A
node_list_push_back list node = list ++ node ∷ []

abbrev pub make_root :
    List (List TypedIdent) → List AstFunc → List AstStruct → List AstEnum → List AstExpr → AstRoot
make_root vars funcs structs enums calls = record {
  vars = vars;
  funcs = funcs;
  structs = structs;
  enums = enums;
  calls = calls;
}
