-- ===== src/TcpConn/Tests.antt =====
-- The theorem on connections at a file between two buffers.
use vemory.Prelude.{◌≡◌, refl, Bool, true, false, some, List, [], ◌∷◌, ◌++◌, Bytes, codes}
use vemory.TcpConn.{TcpConn, Answer, took, again, handle_write}
use vemory.TcpConn.Order.{handle_write_ordered}

abbrev at_the_end : Bool → Bytes
at_the_end true = codes "rest"
at_the_end false = []

abbrev busy : TcpConn
busy = record {
  closed = false;
  wire = codes "a";
  output_buffer = codes "bc";
  sendfile = some (codes "file");
  sendfile_done = at_the_end;
  post_sendfile_buffer = codes "after";
  watched = true;
}

abbrev answers : List Answer
answers = took 0 ∷ took 5 ∷ took 1 ∷ took 9 ∷ again ∷ []

handle_write_ordered_example :
    ((handle_write busy answers).1 ≡ true)
    × ((rest : Bytes) × ((handle_write busy answers).0.0.wire ++ rest ≡ codes "abcfileafterrest"))
handle_write_ordered_example = handle_write_ordered busy answers (λ e. absurd (cc e)) refl
