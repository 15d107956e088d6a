-- ===== src/Slave/Rounds.antt =====
-- The loop of `OnReadable`: each round keeps the link sound, and uses up input or a state.
use vemory.Prelude.{
  ℕ, suc, ◌+◌, ◌<◌, ◌≤◌, ◌≡◌, ◌≢◌, refl, false, Bytes, ◌++◌, length, take, arith, ◌∙◌, sym, subst,
  zero, Bool-cases, inl, inr,
}
use vemory.Decimal.{ℤ}
use vemory.Request.{is_empty}
use vemory.Slave.Frames.{Consumed}
use vemory.Slave.{
  State, init, wait_fullresync, recv_rdb_header, recv_rdb_body, recv_backlog_header,
  recv_backlog_body, streaming, error, Slave, World, enter_streaming, input, skip_input,
  consume_simple_string, try_consume_bulk_header, write_rdb_chunk, finish_rdb_and_load, Round,
  continues, returns, aborts, undefined, hangs, starves, consume_frames, apply_backlog,
  drain_streaming, end_of_rdb, on_wait, on_rdb_header, on_rdb_body, on_backlog_header,
  on_backlog_body, round, rounds, on_readable, is_negative, is_zero, minus, wanted,
}
use vemory.Slave.Link.{
  IsSound, Keeps, Keeps-le, advance_offset-IsSound, at_hand, at_hand-le, backlog_measure,
  backlog_skipped, body_measure, body_skipped, body_takes_all, consume_simple_string-IsSound,
  fail-IsSound, finish_rdb_and_load-IsSound, handle_sync_reply-Keeps, measure, minus_known,
  same_input, skip_input-IsSound, skip_input-state, try_consume_bulk_header-IsSound,
  write_rdb_chunk-IsSound, write_rdb_chunk-stays,
}

module _ {T : Type 0} (w : World T) (apply : T → Bytes → Consumed T) where
  end_of_rdb-Keeps : (t : Slave T) → IsSound t → Keeps 6 (end_of_rdb w apply t)
  unfolding end_of_rdb
  end_of_rdb-Keeps t h =
      ground
        (arith, finish_rdb_and_load-IsSound w t h, at_hand-le (input (finish_rdb_and_load w t).0))

  on_wait-Keeps : (t : Slave T) → IsSound t → Keeps 10 (on_wait w apply t)
  unfolding on_wait
  on_wait-Keeps t h =
      let h' = consume_simple_string-IsSound t h in
      grind (arith, h', λ (s : Bytes). handle_sync_reply-Keeps (consume_simple_string t).0 s h')

  on_rdb_header-Keeps : (t : Slave T) → IsSound t → Keeps 8 (on_rdb_header w apply t)
  unfolding on_rdb_header
  on_rdb_header-Keeps t h =
      let h' = try_consume_bulk_header-IsSound t h in
      let t' = (try_consume_bulk_header t).0 in
      grind (
        arith,
        h',
        fail-IsSound t' h',
        at_hand-le (input t'),
        λ (n : ℤ) (known : is_negative n ≡ false).
            end_of_rdb-Keeps (record t' { rdb_remaining = n; state = recv_rdb_body })
              (h'.0, h'.1, known),
      )

  on_backlog_header-Keeps : (t : Slave T) → IsSound t → Keeps 4 (on_backlog_header w apply t)
  unfolding on_backlog_header enter_streaming
  on_backlog_header-Keeps t h =
      let h' = try_consume_bulk_header-IsSound t h in
      let t' = (try_consume_bulk_header t).0 in
      grind (arith, h', fail-IsSound t' h', at_hand-le (input t'))

  drain_streaming-Keeps : (t : Slave T) → IsSound t → Keeps 0 (drain_streaming w apply t)
  unfolding drain_streaming consume_frames
  drain_streaming-Keeps t h =
      let t' = skip_input (length (input t)) t in
      let h' = skip_input-IsSound (length (input t)) t h in
      grind (
        arith,
        h',
        λ (s : T). fail-IsSound (record t' { stores = s }) h',
        λ (s : T) (left : Bytes) (n : ℕ).
            advance_offset-IsSound (record t' { stores = s; stream_buf = left }) n h',
      )

  apply_backlog-Keeps : (t : Slave T) → IsSound t → Keeps 2 (apply_backlog w apply t)
  unfolding apply_backlog consume_frames enter_streaming
  apply_backlog-Keeps t h = grind (
    arith,
    h,
    at_hand-le (input t),
    λ (s : T). fail-IsSound (record t { stores = s }) h,
    λ (s : T) (n : ℕ). advance_offset-IsSound (record t { stores = s }) n h,
  )

  on_rdb_body-Keeps :
      (t : Slave T)
      → IsSound t
      → t.state ≡ recv_rdb_body
      → Keeps (6 + at_hand (input t)) (on_rdb_body w apply t)
  unfolding on_rdb_body
  on_rdb_body-Keeps t h s =
      let n = wanted t t.rdb_remaining in
      let chunk = take n (input t) in
      let t' = (write_rdb_chunk w t chunk).0 in
      let remaining = minus t.rdb_remaining n in
      let t'' = record (skip_input n t') { rdb_remaining = remaining } in
      let known : is_negative t.rdb_remaining ≡ false = ground (arith, h, s) in
      let sound = write_rdb_chunk-IsSound w t chunk h in
      elim (Bool-cases (is_empty (input t))) [
        | inl none_left ↦ rw none_left h
        | inr some_left ↦ elim (Bool-cases (write_rdb_chunk w t chunk).1) [
          | inr failed ↦ rw (some_left, failed) sound
          | inl written ↦
              let same = write_rdb_chunk-stays w t chunk written in
              let still : t''.state ≡ recv_rdb_body = skip_input-state n t' ∙ (same.0 ∙ s) in
              let left : is_negative remaining ≡ false = minus_known t.rdb_remaining n known in
              let sound'' : IsSound t'' = body_skipped n t' remaining sound still left in
              elim (Bool-cases (is_zero remaining)) [
                | inl complete ↦
                    rw (some_left, written, complete)
                      (Keeps-le 6 (6 + 1) _ (omega arith) (end_of_rdb-Keeps t'' sound''))
                | inr more ↦
                    rw (some_left, written, more)
                      (
                        sound'',
                        body_measure n t' remaining still (
                            same_input t' t n same.1 (body_takes_all t t.rdb_remaining known more)),
                      )
              ]
        ]
      ]

  on_backlog_body-Keeps :
      (t : Slave T)
      → IsSound t
      → t.state ≡ recv_backlog_body
      → Keeps (2 + at_hand (input t)) (on_backlog_body w apply t)
  unfolding on_backlog_body
  on_backlog_body-Keeps t h s =
      let n = wanted t t.backlog_remaining in
      let remaining = minus t.backlog_remaining n in
      let b : Bytes = t.backlog_buf ++ take n (input t) in
      let t' = record (skip_input n t) { backlog_buf = b; backlog_remaining = remaining } in
      let known : is_negative t.backlog_remaining ≡ false = ground (arith, h, s) in
      elim (Bool-cases (is_empty (input t))) [
        | inl none_left ↦ rw none_left h
        | inr some_left ↦
            let still : t'.state ≡ recv_backlog_body = skip_input-state n t ∙ s in
            let left : is_negative remaining ≡ false = minus_known t.backlog_remaining n known in
            let sound : IsSound t' = backlog_skipped n t remaining b h still left in
            elim (Bool-cases (is_zero remaining)) [
              | inl complete ↦
                  rw (some_left, complete)
                    (Keeps-le 2 (2 + 1) _ (omega arith) (apply_backlog-Keeps t' sound))
              | inr more ↦
                  rw (some_left, more)
                    (
                      sound,
                      backlog_measure n t remaining b still
                          (body_takes_all t t.backlog_remaining known more),
                    )
            ]
      ]

  round-Keeps : (t : Slave T) → IsSound t → Keeps (measure t) (round w apply t)
  unfolding round
  round-Keeps t h = by_state t.state refl
    where
      below :
          (n : ℕ) (r : Round T)
          → n ≤ measure t
          → round w apply t ≡ r
          → Keeps n r
          → Keeps (measure t) (round w apply t)
      below n r le runs kept =
          subst (Keeps (measure t)) (sym runs) (Keeps-le n (measure t) r le kept)

      by_state : (s : State) → t.state ≡ s → Keeps (measure t) (round w apply t)
      by_state wait_fullresync e =
          below 10 (on_wait w apply t) (ground (arith, e)) (ground (arith, e)) (on_wait-Keeps t h)
      by_state recv_rdb_header e =
          below 8 (on_rdb_header w apply t) (ground (arith, e)) (ground (arith, e))
            (on_rdb_header-Keeps t h)
      by_state recv_rdb_body e =
          below (6 + at_hand (input t)) (on_rdb_body w apply t) (ground (arith, e))
            (ground (arith, e)) (on_rdb_body-Keeps t h e)
      by_state recv_backlog_header e =
          below 4 (on_backlog_header w apply t) (ground (arith, e)) (ground (arith, e))
            (on_backlog_header-Keeps t h)
      by_state recv_backlog_body e =
          below (2 + at_hand (input t)) (on_backlog_body w apply t) (ground (arith, e))
            (ground (arith, e)) (on_backlog_body-Keeps t h e)
      by_state streaming e =
          below 0 (drain_streaming w apply t) (omega arith) (ground (arith, e))
            (drain_streaming-Keeps t h)
      by_state init e = below 0 (returns t) (omega arith) (ground (arith, e)) h
      by_state error e = below 0 (returns t) (omega arith) (ground (arith, e)) h

  after_round :
      (n left : ℕ) (r : Round T)
      → Keeps n r
      → ((t' : Slave T) → IsSound t' → measure t' < n → Keeps 0 (rounds w apply left t'))
      → Keeps 0 (elim r as (λ r. Round T) [
        | continues t' ↦ rounds w apply left t'
        | returns t' ↦ returns t'
        | aborts ↦ aborts
        | undefined ↦ undefined
        | hangs ↦ hangs
        | starves ↦ starves
      ])
  after_round n left (continues t') kept later = later t' kept.0 kept.1
  after_round n left (returns t') kept later = kept
  after_round n left aborts kept later = tt
  after_round n left undefined kept later = tt
  after_round n left hangs kept later = tt
  after_round n left starves kept later = kept

  rounds-Keeps :
      (left : ℕ) (t : Slave T) → IsSound t → measure t < left → Keeps 0 (rounds w apply left t)
  unfolding rounds
  rounds-Keeps zero t h few = absurd (omega arith)
  rounds-Keeps (suc left) t h few =
      after_round (measure t) left (round w apply t) (round-Keeps t h)
        (λ t' h' less. rounds-Keeps left t' h' (omega arith))

  pub on_readable-Keeps : (t : Slave T) → IsSound t → Keeps 0 (on_readable w apply t)
  unfolding on_readable
  on_readable-Keeps t h =
      let few : measure t < 13 = ground arith in ground (arith, h, rounds-Keeps 13 t h few)

  -- `OnReadable` ends: thirteen rounds of its loop are enough, from every sound state of the link.
  -- (Apart from the loop, the frames of the stream are applied by a function that is any here.)
  pub on_readable_ends : (t : Slave T) → IsSound t → on_readable w apply t ≢ starves
  on_readable_ends t h e = subst (Keeps 0) e (on_readable-Keeps t h)
