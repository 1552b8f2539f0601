-- ===== src/Parser/Sound/VarGrammar.antt =====
-- The grammar of types and variable lists, stated without the parser.
use metagen.Base.{ℕ, ◌+◌, ◌-◌, ◌^◌, ◌≡◌, Bool, true, false, List, [], ◌∷◌, ◌++◌}
use metagen.Lex.Token.{
  token_num, token_colon, token_comma, token_caret, token_lbracket, token_rbracket,
  token_identifier, token_var, Token,
}
use metagen.Str.{str_view_to_u32}
use metagen.Ast.{AstTypeInfo, TypedIdent}
use metagen.Parser.Stmt.{plain_type}

pub data Carets : List Token → ℕ → Type 0 where
  no_caret : Carets [] 0
  caret :
      (t : Token) (ts : List Token) (n : ℕ)
      → Carets ts n
      → t.kind ≡ token_caret
      → Carets (ts ++ t ∷ []) (n + 1)

-- The number of elements, or none, which is -1.
pub data Elements : List Token → ℕ → Type 0 where
  open_length : Elements [] (2 ^ 32 - 1)
  fixed_length :
      (t : Token)
      → t.kind ≡ token_num
      → (str_view_to_u32 t.lexeme).1 ≡ true
      → Elements (t ∷ []) (str_view_to_u32 t.lexeme).0

-- Where no array may stand, empty brackets stand for nothing.
pub data TypeTail : Bool → List ℕ → ℕ → List Token → AstTypeInfo → Type 0 where
  plain : (allow : Bool) (name : List ℕ) (n : ℕ) → TypeTail allow name n [] (plain_type name n)
  array :
      (name : List ℕ) (n elements : ℕ) (l r : Token) (ts : List Token)
      → l.kind ≡ token_lbracket
      → Elements ts elements
      → r.kind ≡ token_rbracket
      → TypeTail true name n
          (l ∷ ts ++ r ∷ [])
          (record { name = name; is_array = true; elements = elements; pointer_indirection = n })
  empty_brackets :
      (name : List ℕ) (n : ℕ) (l r : Token)
      → l.kind ≡ token_lbracket
      → r.kind ≡ token_rbracket
      → TypeTail false name n (l ∷ r ∷ []) (plain_type name n)

pub data TypeOf : Bool → List Token → AstTypeInfo → Type 0 where
  typed_as :
      (allow : Bool) (colon name : Token) (ts us : List Token) (n : ℕ) (info : AstTypeInfo)
      → colon.kind ≡ token_colon
      → Carets ts n
      → name.kind ≡ token_identifier
      → TypeTail allow name.lexeme n us info
      → TypeOf allow (colon ∷ ts ++ name ∷ us) info

-- A variable's type, or nothing where variables have none.
abbrev pub TypeIf : Bool → Bool → List Token → AstTypeInfo → Type 0
TypeIf true allow ts info = TypeOf allow ts info
TypeIf false allow ts info = (ts ≡ []) × (info ≡ plain_type [] 0)

pub data Vars : Bool → Bool → List Token → List TypedIdent → Type 0 where
  last_var :
      (allow typed : Bool) (name : Token) (ts : List Token) (info : AstTypeInfo)
      → name.kind ≡ token_identifier
      → TypeIf typed allow ts info
      → Vars allow typed (name ∷ ts) (record { name = name.lexeme; ast_type_info = info } ∷ [])
  then_var :
      (allow typed : Bool) (name comma : Token) (ts us : List Token) (info : AstTypeInfo)
      (vars : List TypedIdent)
      → name.kind ≡ token_identifier
      → TypeIf typed allow ts info
      → comma.kind ≡ token_comma
      → Vars allow typed us vars
      → Vars allow typed
          (name ∷ ts ++ comma ∷ us)
          (record { name = name.lexeme; ast_type_info = info } ∷ vars)

-- The declarations of a block.
pub data Decls : List Token → List TypedIdent → Type 0 where
  no_decl : Decls [] []
  decl :
      (word : Token) (ts us : List Token) (before vars : List TypedIdent)
      → Decls ts before
      → word.kind ≡ token_var
      → Vars false true us vars
      → Decls (ts ++ word ∷ us) (before ++ vars)
