-- ===== src/Diagnostics/Tests.antt =====
-- A report.
use metagen.Base.{◌≡◌, arith, codes, fault, assert_failed}
use metagen.Base.Int.{pos}
use metagen.Str.Builder.{decimal_digits}
use metagen.Diagnostics.Message.{error_message, error_sym_message, error_message-fault}

error_message-fault_example :
    (error_message (codes "test.meta") (pos 3) (codes "Unrecognized character")
      ≡ fault assert_failed)
    × (error_sym_message (codes "test.meta") (codes "Unrecognized character") (codes "x")
        ≡ fault assert_failed)
unfolding decimal_digits
error_message-fault_example =
    error_message-fault (codes "test.meta") (codes "x") (pos 3) (codes "Unrecognized characte") b'r'
      (omega arith) (omega arith) (omega arith)
