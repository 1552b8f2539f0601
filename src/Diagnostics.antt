-- ===== src/Diagnostics.antt =====
-- The error handler (compiler/error.c, compiler/error.h): the list of reported errors and its
-- counter, as in a program built without assertions. A message is kept as its parts, the line that
-- stands in its prefix (none for the -1 of error_node and error_sym), the symbol that it names and
-- the text; how they are put together, and the assertion that this fails, is Diagnostics/Message.
-- The linked list from head to tail is a list, head first.
pub mod Message
mod Tests
use metagen.Base.{ℕ, String, List, [], ◌∷◌, ◌++◌, Option, none, some, inc32}

pub record CompilerError : Type 0 where
  pub line : Option ℕ
  pub name : List ℕ
  pub msg : String

pub record ErrorHandler : Type 0 where
  pub n_errors : ℕ
  pub errors : List CompilerError

unfoldable pub error_handler_init : ErrorHandler
error_handler_init = record { n_errors = 0; errors = [] }

unfoldable pub append_err : ErrorHandler → CompilerError → ErrorHandler
append_err e error = record e { n_errors = inc32 e.n_errors; errors = e.errors ++ error ∷ [] }

-- `error_lex` with the line of its `end` point, and `error_parse` with that of its token's end.
unfoldable pub error_at : ErrorHandler → String → ℕ → ErrorHandler
unfolding append_err
error_at e msg line = append_err e (record { line = some line; name = []; msg = msg })

unfoldable pub error_node : ErrorHandler → String → ErrorHandler
unfolding append_err
error_node e msg = append_err e (record { line = none; name = []; msg = msg })

unfoldable pub error_sym : ErrorHandler → String → List ℕ → ErrorHandler
unfolding append_err
error_sym e msg name = append_err e (record { line = none; name = name; msg = msg })

-- The two types are not part of the message.
abbrev pub error_typecheck_binary : ErrorHandler → String → ErrorHandler
error_typecheck_binary e msg = error_node e msg

-- A message that is text made at run time: it is kept as bytes where a name stands.
unfoldable pub error_msg_str8 : ErrorHandler → List ℕ → ErrorHandler
unfolding append_err
error_msg_str8 e msg = append_err e (record { line = none; name = msg; msg = "" })
