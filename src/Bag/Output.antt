-- ===== src/Bag/Output.antt =====
-- src/rosbag_v2_writer.cpp: the buffered output of the writer. The temporary file is a list of
-- bytes; what the kernel answers to the calls of `write` and `pwrite` still to come is a list that
-- the state carries, and a call beyond its end is accepted whole.
pub mod Flush
pub mod Stream
pub mod Copying
pub mod Overwrite
pub mod Patch
use mrp_robo_baton_4p_no_ros.Base.{
  ℕ, zero, suc, ◌+◌, ◌-◌, ◌*◌, ◌^◌, Bool, true, false, List, [], ◌∷◌, ◌++◌, length, take, drop,
  replicate, ltb, ◌==◌, if◌then◌else◌, min,
}
use mrp_robo_baton_4p_no_ros.Base.Bytes.{le_bytes}
use mrp_robo_baton_4p_no_ros.Base.Errors.{
  Exception, runtime_error, logic_error, out_of_range, Result, ok, throws,
}
use mrp_robo_baton_4p_no_ros.Bag.Meter.{
  Meter, LatencyTarget, observe_writer_latency, record_raw_write_stats,
}

-- EINTR, any other error, or how many bytes the kernel takes (never more than it is given).
pub data WriteAnswer : Type 0 where
  interrupted failed : WriteAnswer
  wrote : ℕ → WriteAnswer

pub record Io : Type 0 where
  pub clock : List ℕ
  pub answers : List WriteAnswer
  pub is_open : Bool
  pub file : List ℕ
  pub file_offset : ℕ
  pub write_buffer : List ℕ
  pub buffer_size : ℕ
  pub logical_offset : ℕ
  pub meter : Meter

abbrev pub output_buffer_bytes : ℕ
output_buffer_bytes = 8 * 1024 * 1024

-- A step that may throw, and keeps the state that it had reached.
abbrev pub M : Type 0 → Type 0 → Type 0
M S A = S → Result A × S

abbrev pub pure : {S A : Type 0} → A → M S A
pure a s = (ok a, s)

abbrev pub throw : {S A : Type 0} → Exception → M S A
throw e s = (throws e, s)

abbrev pub lift_result : {S A : Type 0} → Result A → M S A
lift_result r s = (r, s)

abbrev pub bind_result : {S A B : Type 0} → Result A → (A → M S B) → M S B
bind_result (ok a) f s = f a s
bind_result (throws e) f s = (throws e, s)

infixl 5 ◌>>=◌ ◌>>◌
abbrev pub ◌>>=◌ : {S A B : Type 0} → M S A → (A → M S B) → M S B
◌>>=◌ m f s = bind_result (m s).0 f (m s).1

abbrev pub ◌>>◌ : {S B : Type 0} → M S (Unit {0}) → M S B → M S B
m >> k = m >>= λ _. k

abbrev pub next_reading : List ℕ → M Io ℕ
next_reading [] s = (ok 0, s)
next_reading (t ∷ ts) s = (ok t, record s { clock = ts })

-- `SteadyNowNs`: the next reading of the clock.
unfoldable pub steady_now_ns : M Io ℕ
steady_now_ns s = next_reading s.clock s

abbrev pub on_meter : (Meter → Meter) → M Io (Unit {0})
on_meter f s = (ok tt, record s { meter = f s.meter })

unfoldable pub ensure_open : M Io (Unit {0})
ensure_open s =
    if s.is_open then (ok tt, s) else (throws (logic_error "rosbag writer is not open"), s)

-- Bytes stored at an offset; a gap behind the end of the file reads as zeros.
unfoldable pub write_at : ℕ → List ℕ → List ℕ → List ℕ
write_at offset bytes file =
    take offset (file ++ replicate (offset - length file) 0)
    ++ (bytes ++ drop (offset + length bytes) file)

-- What the kernel does with a `write` that takes `bytes`.
unfoldable pub accept_write : List ℕ → Io → Io
accept_write bytes s = record s {
  file = write_at s.file_offset bytes s.file;
  file_offset = s.file_offset + length bytes;
  meter = record_raw_write_stats (length bytes) s.meter;
}

-- The loop of `FlushOutputBuffer`, over the answers to come and the bytes that remain.
unfoldable pub flush_loop : List WriteAnswer → List ℕ → M Io (Unit {0})
flush_loop answers [] s = (ok tt, record s { answers = answers; write_buffer = [] })
flush_loop [] (b ∷ bs) s =
    (ok tt, record (accept_write (b ∷ bs) s) { answers = []; write_buffer = [] })
flush_loop (interrupted ∷ answers) (b ∷ bs) s = flush_loop answers (b ∷ bs) s
flush_loop (failed ∷ answers) (b ∷ bs) s =
    (throws (runtime_error "write bag failed"), record s { answers = answers })
flush_loop (wrote zero ∷ answers) (b ∷ bs) s =
    (throws (runtime_error "write bag made no progress"), record s { answers = answers })
flush_loop (wrote (suc n) ∷ answers) (b ∷ bs) s =
    flush_loop answers (drop (suc n) (b ∷ bs)) (accept_write (take (suc n) (b ∷ bs)) s)

unfoldable pub flush_output_buffer : M Io (Unit {0})
flush_output_buffer = do ensure_open; λ s. flush_loop s.answers s.write_buffer s

unfoldable pub flush_if_full : M Io (Unit {0})
flush_if_full s =
    if length s.write_buffer == s.buffer_size then flush_output_buffer s else (ok tt, s)

-- How many of the bytes fit the rest of the buffer, and the copy of that many.
unfoldable pub copy_size : List ℕ → Io → ℕ
copy_size bytes s = min (length bytes) (s.buffer_size - length s.write_buffer)

unfoldable pub copy_bytes : List ℕ → Io → Io
copy_bytes bytes s = record s {
  write_buffer = s.write_buffer ++ bytes;
  logical_offset = s.logical_offset + length bytes;
}

-- The inner loop of `WriteRawBuffers`: each round copies a byte at least, and has a round of fuel for
-- each byte.
unfoldable pub copy_loop : ℕ → List ℕ → M Io (Unit {0})
copy_loop fuel [] s = (ok tt, s)
copy_loop zero (b ∷ bs) s = (ok tt, s)
copy_loop (suc fuel) (b ∷ bs) s =
    (flush_if_full >>= λ _ s'.
    let n = copy_size (b ∷ bs) s' in
    copy_loop fuel (drop n (b ∷ bs)) (copy_bytes (take n (b ∷ bs)) s'))
      s

unfoldable pub copy_buffers : List (List ℕ) → M Io (Unit {0})
copy_buffers [] = pure tt
copy_buffers (bytes ∷ buffers) = do copy_loop (length bytes) bytes; copy_buffers buffers

unfoldable pub ensure_buffer : M Io (Unit {0})
ensure_buffer s =
    if s.buffer_size == 0
    then (ok tt, record s { buffer_size = output_buffer_bytes; write_buffer = [] })
    else (ok tt, s)

unfoldable pub write_raw_buffers : List (List ℕ) → M Io (Unit {0})
write_raw_buffers buffers = do ensure_open; ensure_buffer; copy_buffers buffers

unfoldable pub write_raw : List ℕ → M Io (Unit {0})
write_raw bytes = write_raw_buffers (bytes ∷ [])

unfoldable pub write_u32 : ℕ → M Io (Unit {0})
write_u32 value = write_raw (le_bytes 4 value)

abbrev pub off_max : ℕ
off_max = 2 ^ 63 - 1

-- What the kernel does with a `pwrite` that takes `bytes`: the sequential offset stays.
unfoldable pub accept_pwrite : ℕ → List ℕ → Io → Io
accept_pwrite offset bytes s = record s {
  file = write_at offset bytes s.file;
  meter = record_raw_write_stats (length bytes) s.meter;
}

-- The test against the largest `off_t` that begins each round; `answers` are those still to come.
abbrev pub check_offset : List WriteAnswer → ℕ → M Io (Unit {0}) → M Io (Unit {0})
check_offset answers offset round s =
    if ltb off_max offset
    then (throws (out_of_range "bag pwrite offset too large"), record s { answers = answers })
    else round s

-- The loop of `PwriteRaw`, over the answers to come and the bytes that remain.
unfoldable pub pwrite_loop : List WriteAnswer → ℕ → List ℕ → M Io (Unit {0})
pwrite_loop answers offset [] s = (ok tt, record s { answers = answers })
pwrite_loop [] offset (b ∷ bs) s =
    check_offset [] offset (λ u. (ok tt, record (accept_pwrite offset (b ∷ bs) u) { answers = [] }))
      s
pwrite_loop (interrupted ∷ answers) offset (b ∷ bs) s =
    check_offset (interrupted ∷ answers) offset (λ u. pwrite_loop answers offset (b ∷ bs) u) s
pwrite_loop (failed ∷ answers) offset (b ∷ bs) s =
    check_offset (failed ∷ answers) offset
      (λ u. (throws (runtime_error "pwrite bag failed"), record u { answers = answers })) s
pwrite_loop (wrote zero ∷ answers) offset (b ∷ bs) s =
    check_offset (wrote zero ∷ answers) offset
      (λ u. (throws (runtime_error "pwrite bag made no progress"), record u { answers = answers }))
      s
pwrite_loop (wrote (suc n) ∷ answers) offset (b ∷ bs) s =
    check_offset (wrote (suc n) ∷ answers) offset
      (λ u.
        pwrite_loop answers (offset + length (take (suc n) (b ∷ bs))) (drop (suc n) (b ∷ bs))
          (accept_pwrite offset (take (suc n) (b ∷ bs)) u))
      s

unfoldable pub pwrite_raw : ℕ → List ℕ → M Io (Unit {0})
pwrite_raw offset bytes = do ensure_open; λ s. pwrite_loop s.answers offset bytes s
