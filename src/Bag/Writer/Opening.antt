-- ===== src/Bag/Writer/Opening.antt =====
-- What `start_chunk` leaves, and how times move through the writer.
use mrp_robo_baton_4p_no_ros.Base.{
  ℕ, ◌+◌, ◌≤◌, ◌≡◌, refl, sym, ap, subst, ◌∙◌, true, List, [], ◌∷◌, ◌++◌, append-nil, length,
  length-append, arith, replicate, inl, inr,
}
use mrp_robo_baton_4p_no_ros.Base.Errors.{ok}
use mrp_robo_baton_4p_no_ros.Bag.Encode.{RosbagTime}
use mrp_robo_baton_4p_no_ros.Bag.Meter.{chunk_open}
use mrp_robo_baton_4p_no_ros.Bag.Output.{Io, steady_now_ns, flush_output_buffer, write_raw}
use mrp_robo_baton_4p_no_ros.Bag.Output.Flush.{Benign}
use mrp_robo_baton_4p_no_ros.Bag.Output.Stream.{stream, IsStream, Extends, flush_output_buffer_lem}
use mrp_robo_baton_4p_no_ros.Bag.Writer.{Writer, on_io, write_chunk_header, serialize_chunk_header}
use mrp_robo_baton_4p_no_ros.Bag.Writer.Logging.{
  Logs, Logs-lift, Logs-clock, Logs-observe, Logs-buffers, Logs-cast, bind-ok,
}
use mrp_robo_baton_4p_no_ros.Bag.Writer.Chunks.{begin_chunk, mark_chunk_open, start_chunk}

write_chunk_header-Logs :
    (size : ℕ) (header : List ℕ)
    → serialize_chunk_header size size ≡ ok header
    → Logs header (write_chunk_header size size)
unfolding write_chunk_header write_raw
write_chunk_header-Logs size header e =
    Logs-lift _ header _ header e
      (Logs-cast (header ++ []) header (append-nil header) (Logs-buffers (header ∷ [])))

-- A flush within the writer: the whole stream is in the file.
flush_on_disk :
    (w : Writer)
    → IsStream w.io
    → Benign w.io.answers
    → (t : Io) × (on_io flush_output_buffer w ≡ (ok tt, record w { io = t }))
      × Extends w.io t []
      × (t.file ≡ stream w.io)
flush_on_disk w v good = elim (flush_output_buffer_lem w.io v) [
  | inl (t, ran, x, on_disk) ↦ (t, ap (λ r. (r.0, record w { io = r.1 })) ran, x, on_disk)
  | inr (e, t, ran, torn, bad) ↦ absurd (bad good)
]

same_stream : (s t : Io) → Extends s t [] → stream t ≡ stream s
same_stream s t x = x.appended ∙ append-nil (stream s)

whole_file : (s : Io) → length (stream s) ≤ length s.file → s.file ≡ stream s
whole_file s h =
    go s.file s.write_buffer
      (subst (λ n. n ≤ length s.file) (length-append s.file s.write_buffer) h)
  where
    go : (xs ys : List ℕ) → length xs + length ys ≤ length xs → xs ≡ xs ++ ys
    go xs [] h = sym (append-nil xs)
    go xs (y ∷ ys) h = absurd (omega arith)

-- The writer `u` has an open chunk, behind the stream of `w`.
abbrev pub HasStarted : RosbagTime → List ℕ → Writer → Writer → Type 0
HasStarted time header w u =
    IsStream u.io
    × Benign u.io.answers
    × (u.io.file ≡ stream w.io ++ header)
    × (stream u.io ≡ stream w.io ++ header)
    × (u.chunk_is_open ≡ true)
    × (u.current_chunk_pos ≡ length (stream w.io))
    × (u.current_chunk_data_pos ≡ length (stream w.io) + length header)
    × (u.current_chunk_indexes ≡ replicate (length w.connections) [])
    × (u.current_chunk.connection_counts ≡ replicate (length w.connections) 0)
    × (u.current_chunk.start_time ≡ time)
    × (u.current_chunk.end_time ≡ time)

-- With a sound output and good answers of the kernel a chunk opens: its header, with sizes yet
-- unknown, is appended and on disk with all before it, the chunk's position is the header's first byte
-- and its data begin right behind the header, and the indexes and the counts are empty, one for each
-- connection.
pub start_chunk_lem :
    (time : RosbagTime) (w : Writer) (header : List ℕ)
    → serialize_chunk_header 0 0 ≡ ok header
    → IsStream w.io
    → Benign w.io.answers
    → (u : Writer) × (start_chunk time w ≡ (ok tt, u)) × HasStarted time header w u
unfolding start_chunk begin_chunk mark_chunk_open
start_chunk_lem time w header e v good =
    let (start, t₁, ran₁, x₁) = Logs-clock w v good in
    let w₁ = begin_chunk time (record w { io = t₁ }) in
    let (_, t₂, ran₂, x₂) = write_chunk_header-Logs 0 header e w₁ x₁.valid (x₁.benign good) in
    let w₂ : Writer = record w₁ { io = t₂ } in
    let (t₃, ran₃, x₃, on_disk) = flush_on_disk w₂ x₂.valid (x₂.benign (x₁.benign good)) in
    let w₃ = mark_chunk_open (record w₂ { io = t₃ }) in
    let (_, t₄, ran₄, x₄) =
      Logs-observe chunk_open start w₃ x₃.valid (x₃.benign (x₂.benign (x₁.benign good))) in
    let u : Writer = record w₃ { io = t₄ } in
    let before : stream t₁ ≡ stream w.io = same_stream w.io t₁ x₁ in
    let written : stream t₂ ≡ stream w.io ++ header = x₂.appended ∙ ap (λ l. l ++ header) before in
    let flushed : stream t₃ ≡ stream w.io ++ header = same_stream t₂ t₃ x₃ ∙ written in
    let observed : stream t₄ ≡ stream w.io ++ header = same_stream t₃ t₄ x₄ ∙ flushed in
    let kept : length t₃.file ≤ length t₄.file = x₄.flushed in
    let whole : length (stream t₄) ≤ length t₄.file =
      subst (λ n. n ≤ length t₄.file) (ap length (on_disk ∙ written ∙ sym observed)) kept in
    (
      u,
      bind-ok (on_io steady_now_ns) _ start w _ ran₁
          ∙ bind-ok (write_chunk_header 0 0) _ tt w₁ w₂ ran₂
          ∙ bind-ok (on_io flush_output_buffer) _ tt w₂ _ ran₃
          ∙ ran₄,
      (
        x₄.valid,
        x₄.benign (x₃.benign (x₂.benign (x₁.benign good))),
        whole_file t₄ whole ∙ observed,
        observed,
        refl,
        x₁.valid.counted ∙ ap length before,
        x₃.valid.counted ∙ ap length flushed ∙ length-append (stream w.io) header,
        refl,
        refl,
        refl,
        refl,
      ),
    )
