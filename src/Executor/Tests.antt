-- ===== src/Executor/Tests.antt =====
-- The executor at a server that keeps the elements that it is sent, and echoes them.
use vemory.Prelude.{◌≢◌, codes, none, List, [], ◌∷◌, ◌++◌, Bytes, arith}
use vemory.Decimal.{negsuc}
use vemory.Executor.{Service, on_buffer_readable, hangs}
use vemory.Executor.Split.{on_buffer_readable_ends}

abbrev echoing : Service (List Bytes)
echoing = record {
  on_ok = λ s ctx. (s ++ (ctx.element ∷ []), ctx.element);
  now = λ s. 0;
  strtof = λ b. none;
  room = 1000;
  client_fd = negsuc 0;
}

abbrev first_half : Bytes
first_half = codes "*2\r\n$4\r\nECHO\r\n$1\r\nx\r\n*2\r\n$4\r\nEC"

abbrev second_half : Bytes
second_half = codes "HO\r\n$1\r\ny\r\n"

on_buffer_readable_ends_example : on_buffer_readable echoing [] first_half ≢ hangs
on_buffer_readable_ends_example = on_buffer_readable_ends echoing [] first_half (omega arith)
