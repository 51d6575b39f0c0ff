-- ===== src/Bag/Output/Copying.antt =====
-- `WriteRawBuffers` appends its buffers to the stream, through however many flushes.
use mrp_robo_baton_4p_no_ros.Base.{
  ℕ, zero, suc, ◌-◌, ◌≤◌, ◌<◌, ◌≡◌, sym, ap, subst, ◌∙◌, List, [], ◌∷◌, ◌++◌, append-nil,
  append_assoc, length, take, drop, arith, length-append, take-append-drop, length-take,
  length-drop, min, Bool-cases, ◌==◌, inl, inr,
}
use mrp_robo_baton_4p_no_ros.Base.Errors.{Exception, Result, ok, throws}
use mrp_robo_baton_4p_no_ros.Bag.Output.{
  Io, flush_if_full, copy_size, copy_bytes, copy_loop, copy_buffers, ensure_buffer,
  write_raw_buffers, write_raw, bind_result,
}
use mrp_robo_baton_4p_no_ros.Bag.Output.Flush.{Benign}
use mrp_robo_baton_4p_no_ros.Bag.Output.Stream.{
  stream, IsStream, Extends, Extends-refl, Extends-trans, Appends, appends, fails, Appends-after,
  Appends-bind, Empties, empties, stops, flush_output_buffer-Empties, ensure_open_lem,
}

-- Before a copy there is room for a byte, or the flush that makes room has failed.
data Readies (s : Io) : Result (Unit {0}) × Io → Type 0 where
  readies : (t : Io) → Extends s t [] → length t.write_buffer < t.buffer_size → Readies s (ok tt, t)
  halts :
      (e : Exception) (t : Io) (rest : List ℕ)
      → t.file ++ rest ≡ stream s
      → ¬ Benign s.answers
      → Readies s (throws e, t)

Readies-Empties : (s : Io) {r : Result (Unit {0}) × Io} → Empties s r → Readies s r
Readies-Empties s (empties t x w) = readies t x (rw w x.valid.sized)
Readies-Empties s (stops e t rest f bad) = halts e t rest f bad

flush_if_full-Readies : (s : Io) → IsStream s → Readies s (flush_if_full s)
unfolding flush_if_full
flush_if_full-Readies s v = elim (Bool-cases (length s.write_buffer == s.buffer_size)) [
  | inl full ↦ rw full (Readies-Empties s (flush_output_buffer-Empties s v))
  | inr spare ↦ rw spare (readies s (Extends-refl s v) (ground (arith, v.room)))
]

copied :
    (s : Io) (bytes : List ℕ)
    → IsStream s
    → length s.write_buffer < s.buffer_size
    → 0 < length bytes
    → let n = copy_size bytes s in
      Extends s (copy_bytes (take n bytes) s) (take n bytes) × (0 < n) × (n ≤ length bytes)
unfolding copy_size copy_bytes
copied s bytes v h p =
    let n = min (length bytes) (s.buffer_size - length s.write_buffer) in
    (
      record {
        appended = sym (append_assoc s.file s.write_buffer (take n bytes));
        valid = record {
          opened = v.opened;
          at_end = v.at_end;
          counted = omega (
            arith,
            v.counted,
            length-append s.file s.write_buffer,
            length-append s.file (s.write_buffer ++ take n bytes),
            length-append s.write_buffer (take n bytes),
          );
          room = omega (arith, length-append s.write_buffer (take n bytes), length-take n bytes);
          sized = v.sized;
        };
        flushed = omega arith;
        benign = λ g. g;
      },
      omega arith,
      omega arith,
    )

copy_rest :
    (bytes : List ℕ) (s t : Io) (next : List ℕ → Io → Result (Unit {0}) × Io)
    → Extends s t []
    → length t.write_buffer < t.buffer_size
    → 0 < length bytes
    → ((rest : List ℕ) (u : Io)
        → length rest < length bytes
        → IsStream u
        → Appends u rest (next rest u))
    → let n = copy_size bytes t in
      Appends s bytes (next (drop n bytes) (copy_bytes (take n bytes) t))
copy_rest bytes s t next x room p step =
    let n = copy_size bytes t in
    let (y, n_pos, n_le) = copied t bytes x.valid room p in
    subst (λ l. Appends s l (next (drop n bytes) (copy_bytes (take n bytes) t)))
      (take-append-drop n bytes)
      (Appends-after s (copy_bytes (take n bytes) t) (take n bytes) (drop n bytes)
        (Extends-trans s t (copy_bytes (take n bytes) t) [] (take n bytes) x y)
        (step (drop n bytes) _ (omega (arith, length-drop n bytes)) y.valid))

copy_loop-Appends :
    (fuel : ℕ) (bytes : List ℕ) (s : Io)
    → length bytes ≤ fuel
    → IsStream s
    → Appends s bytes (copy_loop fuel bytes s)
unfolding copy_loop
copy_loop-Appends zero [] s h v = appends s (Extends-refl s v)
copy_loop-Appends (suc fuel) [] s h v = appends s (Extends-refl s v)
copy_loop-Appends zero (b ∷ bs) s h v = absurd (omega arith)
copy_loop-Appends (suc fuel) (b ∷ bs) s h v =
    go (flush_if_full s) (flush_if_full-Readies s v)
      (λ rest u k w. copy_loop-Appends fuel rest u (omega arith) w)
  where
    go :
        (r : Result (Unit {0}) × Io)
        → Readies s r
        → ((rest : List ℕ) (u : Io)
            → length rest < length (b ∷ bs)
            → IsStream u
            → Appends u rest (copy_loop fuel rest u))
        → Appends s (b ∷ bs) (
            bind_result r.0
              (λ _ s'.
                let n = copy_size (b ∷ bs) s' in
                copy_loop fuel (drop n (b ∷ bs)) (copy_bytes (take n (b ∷ bs)) s'))
              r.1)
    go r (readies t x room) ih = copy_rest (b ∷ bs) s t (copy_loop fuel) x room (omega arith) ih
    go r (halts e t rest f bad) ih =
        fails e t (rest ++ b ∷ bs)
          (sym (append_assoc t.file rest (b ∷ bs)) ∙ ap (λ l. l ++ b ∷ bs) f) bad

abbrev pub concat : List (List ℕ) → List ℕ
concat [] = []
concat (bytes ∷ buffers) = bytes ++ concat buffers

copy_buffers-Appends :
    (buffers : List (List ℕ)) (s : Io)
    → IsStream s
    → Appends s (concat buffers) (copy_buffers buffers s)
unfolding copy_buffers
copy_buffers-Appends [] s v = appends s (Extends-refl s v)
copy_buffers-Appends (bytes ∷ buffers) s v =
    Appends-bind s bytes (concat buffers) (copy_loop (length bytes) bytes) (copy_buffers buffers)
      (copy_loop-Appends (length bytes) bytes s (omega arith) v)
      (λ t w. copy_buffers-Appends buffers t w)

ensure_buffer_lem : (s : Io) → 0 < s.buffer_size → ensure_buffer s ≡ (ok tt, s)
unfolding ensure_buffer
ensure_buffer_lem s h = ground arith

-- Writing to an open output whose buffer is set up appends exactly the given bytes, in order, behind
-- the bytes before them; it fails only on a bad answer of the kernel, and then the file still is a
-- first part of that stream.
pub write_raw_buffers-Appends :
    (buffers : List (List ℕ)) (s : Io)
    → IsStream s
    → Appends s (concat buffers) (write_raw_buffers buffers s)
unfolding write_raw_buffers
write_raw_buffers-Appends buffers s v =
    rw (ensure_open_lem s v.opened)
      (rw (ensure_buffer_lem s v.sized) (copy_buffers-Appends buffers s v))

pub write_raw-Appends : (bytes : List ℕ) (s : Io) → IsStream s → Appends s bytes (write_raw bytes s)
unfolding write_raw
write_raw-Appends bytes s v =
    subst (λ l. Appends s l (write_raw_buffers (bytes ∷ []) s)) (append-nil bytes)
      (write_raw_buffers-Appends (bytes ∷ []) s v)
