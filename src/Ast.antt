-- ===== src/Ast.antt =====
-- The abstract syntax tree (compiler/ast.h). A node keeps the fields that later passes fill in, empty
-- after parsing: the type of an expression, the symbol of a literal, the address of a block's table and
-- its symbols. The list
-- of a call's arguments is never empty in the source, where a missing list is NULL: that is `nil`.
-- `expr_null` and `stmt_null` are the NULL that the parser leaves behind a reported error. The lists of
-- the root are of one kind of node each.
pub mod Make
use metagen.Base.{ℕ, Bool, List, Option}
use metagen.Lex.Token.{TokenKind}
use metagen.Types.{TypeInfo, Symbol}

pub data LiteralType : Type 0 where
  lit_str lit_ident lit_num lit_null : LiteralType

-- `elements` is kept as its 32-bit pattern.
pub record AstTypeInfo : Type 0 where
  pub name : List ℕ
  pub is_array : Bool
  pub elements : ℕ
  pub pointer_indirection : ℕ

pub record TypedIdent : Type 0 where
  pub name : List ℕ
  pub ast_type_info : AstTypeInfo

mutual
  pub data AstExpr : Type 0 where
    expr_null : AstExpr
    expr_unary : Option TypeInfo → TokenKind → AstExpr → AstExpr
    expr_binary : Option TypeInfo → AstExpr → TokenKind → AstExpr → AstExpr
    expr_literal : Option TypeInfo → Option Symbol → LiteralType → List ℕ → AstExpr
    expr_call : Option TypeInfo → (is_comptime : Bool) → List ℕ → AstExprs → AstExpr

  pub data AstExprs : Type 0 where
    nil : AstExprs
    cons : AstExpr → AstExprs → AstExprs

mutual
  pub data AstStmt : Type 0 where
    stmt_null : AstStmt
    stmt_while : AstExpr → AstStmt → AstStmt
    stmt_if : AstExpr → AstStmt → AstStmt
    stmt_if_else : AstExpr → AstStmt → AstStmt → AstStmt
    stmt_break stmt_continue : AstStmt
    stmt_return : AstExpr → AstStmt
    stmt_expr : AstExpr → AstStmt
    stmt_print : AstExprs → AstStmt
    stmt_block : List TypedIdent → AstStmts → (symt_local : ℕ) → Option (List Symbol) → AstStmt
    stmt_assignment : AstExpr → AstExpr → AstStmt

  pub data AstStmts : Type 0 where
    none_left : AstStmts
    then_stmt : AstStmt → AstStmts → AstStmts

-- A missing body is NULL: `none`.
pub record AstFunc : Type 0 where
  pub name : List ℕ
  pub parameters : List TypedIdent
  pub return_type : AstTypeInfo
  pub body : Option AstStmt

pub record AstStruct : Type 0 where
  pub name : List ℕ
  pub members : List TypedIdent

pub record AstEnum : Type 0 where
  pub name : List ℕ
  pub members : List TypedIdent

pub record AstRoot : Type 0 where
  pub vars : List (List TypedIdent)
  pub funcs : List AstFunc
  pub structs : List AstStruct
  pub enums : List AstEnum
  pub calls : List AstExpr
