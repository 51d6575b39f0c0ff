-- ===== src/Bag/Writer/Records.antt =====
-- Where the records of an open chunk lie, and what the index says of them.
use mrp_robo_baton_4p_no_ros.Base.{
  ℕ, ◌+◌, ◌-◌, ◌≤◌, ◌<◌, ◌%◌, ◌^◌, ◌≡◌, refl, ap, ◌∙◌, false, not, List, [], ◌∷◌, ◌++◌, append-nil,
  length, arith, set, get_or, ltb, drop, ◌≢◌, drop-length-append, get_or-set_same, get_or-set_other,
}
use mrp_robo_baton_4p_no_ros.Base.Errors.{ok}
use mrp_robo_baton_4p_no_ros.Bag.Encode.{RosbagTime, serialize_record_header, to_uint32, uint32_max}
use mrp_robo_baton_4p_no_ros.Bag.Meter.{
  Meter, chunk_write, record_record_header_write_stats, record_record_payload_write_stats,
}
use mrp_robo_baton_4p_no_ros.Bag.Output.{Io, steady_now_ns, on_meter, write_raw_buffers}
use mrp_robo_baton_4p_no_ros.Bag.Output.Flush.{Benign}
use mrp_robo_baton_4p_no_ros.Bag.Output.Stream.{stream, IsStream, Extends}
use mrp_robo_baton_4p_no_ros.Bag.Writer.{Writer, IndexEntry, on_io, elapsed}
use mrp_robo_baton_4p_no_ros.Bag.Writer.Logging.{
  Logs, Logs-after, Logs-before, Logs-lift, Logs-clock, Logs-meter, Logs-observe, Logs-buffers,
  Logs-cast, throw_when-passes, bind-ok,
}
use mrp_robo_baton_4p_no_ros.Bag.Writer.Messages.{
  message_fields, write_message_record, write_timed_record, current_chunk_offset, push_index,
  count_message, append_message, widen_chunk_times,
}

-- A record is its header and its payload, one behind the other.
write_message_record-Logs :
    (connection_id : ℕ) (time : RosbagTime) (payload header : List ℕ)
    → serialize_record_header (message_fields connection_id time) (to_uint32 (length payload))
      ≡ ok header
    → Logs (header ++ payload) (write_message_record connection_id time payload)
unfolding write_message_record
write_message_record-Logs connection_id time payload header e =
    Logs-after (header ++ payload) (on_io steady_now_ns) _ Logs-clock (λ header_start.
      Logs-lift _ header _ (header ++ payload) e (
        Logs-after (header ++ payload) (on_io steady_now_ns) _ Logs-clock (λ write_start.
          Logs-before (header ++ payload) (on_io (write_raw_buffers (header ∷ payload ∷ []))) _
            (Logs-cast (header ++ (payload ++ [])) (header ++ payload)
              (ap (λ l. header ++ l) (append-nil payload)) (Logs-buffers (header ∷ payload ∷ [])))
            (λ _. Logs-after [] (on_io steady_now_ns) _ Logs-clock (λ finish.
              Logs-after [] (on_io (on_meter (header_stats header_start finish))) _
                (Logs-meter (header_stats header_start finish))
                (λ _. Logs-meter (payload_stats write_start finish)))))))
  where
    header_stats : ℕ → ℕ → Meter → Meter
    header_stats start finish =
        record_record_header_write_stats (elapsed start finish) (length header)

    payload_stats : ℕ → ℕ → Meter → Meter
    payload_stats start finish =
        record_record_payload_write_stats (elapsed start finish) (length payload)

write_timed_record-Logs :
    (connection_id : ℕ) (time : RosbagTime) (payload header : List ℕ)
    → serialize_record_header (message_fields connection_id time) (to_uint32 (length payload))
      ≡ ok header
    → Logs (header ++ payload) (write_timed_record connection_id time payload)
unfolding write_timed_record
write_timed_record-Logs connection_id time payload header e =
    Logs-after (header ++ payload) (on_io steady_now_ns) _ Logs-clock (λ start.
      Logs-before (header ++ payload) (write_message_record connection_id time payload) _
        (write_message_record-Logs connection_id time payload header e)
        (λ _. Logs-observe chunk_write start))

current_chunk_offset-eq-ok :
    (w : Writer)
    → w.current_chunk_data_pos ≤ w.io.logical_offset
    → w.io.logical_offset - w.current_chunk_data_pos ≤ uint32_max
    → current_chunk_offset w ≡ (ok (w.io.logical_offset - w.current_chunk_data_pos), w)
unfolding current_chunk_offset
current_chunk_offset-eq-ok w h h' =
    throw_when-passes _ _ _ w (in_order w.io.logical_offset w.current_chunk_data_pos h)
    ∙ throw_when-passes _ _ _ w (fits (w.io.logical_offset - w.current_chunk_data_pos) h')
    ∙ ap (λ n. (ok n, w)) (small (w.io.logical_offset - w.current_chunk_data_pos) h')
  where
    in_order : (a b : ℕ) → b ≤ a → ltb a b ≡ false
    in_order a b h = ground arith

    fits : (n : ℕ) → n ≤ uint32_max → ltb uint32_max n ≡ false
    fits n h = ground arith

    small : (n : ℕ) → n ≤ uint32_max → n % 2 ^ 32 ≡ n
    small n h = omega arith

-- The writer behind the index entry and the count of a message.
abbrev indexed : ℕ → RosbagTime → ℕ → Writer → Writer
indexed connection_id time offset w = count_message connection_id (record w {
  current_chunk_indexes = set w.current_chunk_indexes connection_id (
      get_or w.current_chunk_indexes connection_id []
      ++ record { time = time; offset = offset } ∷ []);
})

push_index-eq-ok :
    (connection_id : ℕ) (entry : IndexEntry) (w : Writer)
    → connection_id < length w.current_chunk_indexes
    → push_index connection_id entry w ≡ (
      ok tt,
      record w {
        current_chunk_indexes =
            set w.current_chunk_indexes connection_id
              (get_or w.current_chunk_indexes connection_id [] ++ entry ∷ []);
      },
    )
unfolding push_index
push_index-eq-ok connection_id entry w h =
    throw_when-passes _ _ _ w (known connection_id (length w.current_chunk_indexes) h)
  where
    known : (a b : ℕ) → a < b → not (ltb a b) ≡ false
    known a b h = ground arith

-- What `append_message` leaves: `t` is the output behind the record.
abbrev pub appended_to : ℕ → RosbagTime → Writer → Io → Writer
appended_to connection_id time w t =
    record (indexed connection_id time (w.io.logical_offset - w.current_chunk_data_pos) w) {
      io = t;
      current_chunk =
          widen_chunk_times time
            (indexed connection_id time (w.io.logical_offset - w.current_chunk_data_pos)
              w).current_chunk;
    }

append_message-runs :
    (connection_id : ℕ) (time : RosbagTime) (payload header : List ℕ) (w : Writer)
    → IsStream w.io
    → Benign w.io.answers
    → w.current_chunk_data_pos ≤ w.io.logical_offset
    → w.io.logical_offset - w.current_chunk_data_pos ≤ uint32_max
    → connection_id < length w.current_chunk_indexes
    → serialize_record_header (message_fields connection_id time) (to_uint32 (length payload))
      ≡ ok header
    → (t : Io) × (append_message connection_id time payload w
        ≡ (ok tt, appended_to connection_id time w t))
      × Extends w.io t (header ++ payload)
unfolding append_message count_message
append_message-runs connection_id time payload header w v good h h' known e =
    let offset = w.io.logical_offset - w.current_chunk_data_pos in
    let (a, t, ran, x) =
      write_timed_record-Logs connection_id time payload header e
        (indexed connection_id time offset w) v good in
    (
      t,
      bind-ok current_chunk_offset _ offset w w (current_chunk_offset-eq-ok w h h')
          ∙ bind-ok (push_index connection_id (record { time = time; offset = offset })) _ tt w _
              (push_index-eq-ok connection_id (record { time = time; offset = offset }) w known)
          ∙ bind-ok (write_timed_record connection_id time payload) _ tt
              (indexed connection_id time offset w) _ ran,
      x,
    )

-- The message is behind the stream of `w`, and the entry that its connection gained finds it.
abbrev pub HasMessage : ℕ → RosbagTime → List ℕ → Writer → Writer → IndexEntry → Type 0
HasMessage connection_id time message w u entry =
    IsStream u.io
    × Benign u.io.answers
    × (stream u.io ≡ stream w.io ++ message)
    × (drop (u.current_chunk_data_pos + entry.offset) (stream u.io) ≡ message)
    × (entry.time ≡ time)
    × (get_or u.current_chunk_indexes connection_id []
        ≡ get_or w.current_chunk_indexes connection_id [] ++ entry ∷ [])
    × ((other : ℕ)
        → connection_id ≢ other
        → get_or u.current_chunk_indexes other [] ≡ get_or w.current_chunk_indexes other [])

-- From a sound output, good answers, and a chunk whose data begin within the stream, a message is
-- written behind the stream, and the index finds it: behind the chunk's data position, at the offset
-- of the entry that its connection gains, the stream is the record's header and its payload. The
-- entries that were there stay, also those of the other connections.
pub append_message_lem :
    (connection_id : ℕ) (time : RosbagTime) (payload header : List ℕ) (w : Writer)
    → IsStream w.io
    → Benign w.io.answers
    → w.current_chunk_data_pos ≤ w.io.logical_offset
    → w.io.logical_offset - w.current_chunk_data_pos ≤ uint32_max
    → connection_id < length w.current_chunk_indexes
    → serialize_record_header (message_fields connection_id time) (to_uint32 (length payload))
      ≡ ok header
    → (u : Writer) × (entry : IndexEntry) × (append_message connection_id time payload w
        ≡ (ok tt, u))
      × HasMessage connection_id time (header ++ payload) w u entry
unfolding count_message
append_message_lem connection_id time payload header w v good h h' known e =
    let (t, ran, x) = append_message-runs connection_id time payload header w v good h h' known e in
    let offset = w.io.logical_offset - w.current_chunk_data_pos in
    let entry : IndexEntry = record { time = time; offset = offset } in
    (
      appended_to connection_id time w t,
      entry,
      ran,
      (
        x.valid,
        x.benign good,
        x.appended,
        ap (λ n. drop n (stream t))
              (at_end w.io.logical_offset w.current_chunk_data_pos (length (stream w.io)) h
                v.counted)
            ∙ ap (λ l. drop (length (stream w.io)) l) x.appended
            ∙ drop-length-append (stream w.io) (header ++ payload),
        refl,
        get_or-set_same w.current_chunk_indexes connection_id _ [] known,
        λ other differs. get_or-set_other w.current_chunk_indexes connection_id other _ [] differs,
      ),
    )
  where
    at_end : (a b n : ℕ) → b ≤ a → a ≡ n → b + (a - b) ≡ n
    at_end a b n h e = omega arith
