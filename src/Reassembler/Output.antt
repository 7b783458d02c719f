-- ===== src/Reassembler/Output.antt =====
-- The output stream, whatever is pushed.
use tcp.Prelude.{ℕ, Bool, true, false, List}
use tcp.ByteStream.{ByteStream}
use tcp.ByteStream.Invariant.{IsValid, write-IsValid, end_input-IsValid}
use tcp.Reassembler.{StreamReassembler, Work, push_substring, finish, end_if, assemble}

ended-IsValid : (b : Bool) (s : ByteStream) → IsValid s → IsValid (end_if b s)
unfolding end_if
ended-IsValid true s v = end_input-IsValid v
ended-IsValid false s v = v

finish-IsValid :
    (r : StreamReassembler) (w : Work) (end : ℕ) (eof : Bool)
    → IsValid r.output
    → IsValid (finish r w end eof).output
unfolding finish
finish-IsValid r w end eof v = ended-IsValid _ _ (write-IsValid v w.to_write)

-- `push_substring` keeps the output a stream, whatever bytes at whatever index it is given.
pub output-push_substring :
    (r : StreamReassembler) (bytes : List ℕ) (index : ℕ) (eof : Bool)
    → IsValid r.output
    → IsValid (push_substring r bytes index eof).output
unfolding push_substring
output-push_substring r bytes index eof v = finish-IsValid r (assemble r bytes index) _ eof v
