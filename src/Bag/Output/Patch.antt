-- ===== src/Bag/Output/Patch.antt =====
-- `PwriteRaw` overwrites bytes that are on disk, and leaves the rest of the stream as it was.
use mrp_robo_baton_4p_no_ros.Base.{
  ℕ, ◌+◌, ◌^◌, ◌≤◌, ◌<◌, ◌≡◌, refl, sym, ap, ◌∙◌, List, ◌++◌, append_assoc, length, take, drop,
  arith, length-append, take-append-drop, take-append_left, take-length-append, drop-append_left,
  drop-length-append,
}
use mrp_robo_baton_4p_no_ros.Base.Errors.{Exception, Result, ok, throws}
use mrp_robo_baton_4p_no_ros.Bag.Output.{Io, pwrite_raw}
use mrp_robo_baton_4p_no_ros.Bag.Output.Flush.{Benign}
use mrp_robo_baton_4p_no_ros.Bag.Output.Stream.{stream, IsStream, ensure_open_lem}
use mrp_robo_baton_4p_no_ros.Bag.Output.Overwrite.{Overwrites, whole, part, pwrite_loop-Overwrites}

-- The outcome of a patch, on the stream: exactly the old bytes are replaced, or the kernel answered
-- badly.
pub data Patches (s : Io) (pre new post : List ℕ) : Result (Unit {0}) × Io → Type 0 where
  patched :
      (t : Io)
      → stream t ≡ pre ++ (new ++ post)
      → IsStream t
      → length t.file ≡ length s.file
      → (Benign s.answers → Benign t.answers)
      → Patches s pre new post (ok tt, t)
  unpatched : (e : Exception) (t : Io) → ¬ Benign s.answers → Patches s pre new post (throws e, t)

-- What is on disk, split at the end of the bytes to replace.
module _ (s : Io) (pre old post : List ℕ) (split : stream s ≡ pre ++ (old ++ post))
    (on_disk : length pre + length old ≤ length s.file) where
  pub tail_of_file : List ℕ
  tail_of_file = drop (length (pre ++ old)) s.file

  whole_split : s.file ++ s.write_buffer ≡ (pre ++ old) ++ post
  whole_split = split ∙ sym (append_assoc pre old post)

  short : length (pre ++ old) ≤ length s.file
  short = omega (arith, length-append pre old, on_disk)

  file_split : s.file ≡ pre ++ (old ++ tail_of_file)
  unfolding tail_of_file
  file_split =
      let n = length (pre ++ old) in
      let front : take n s.file ≡ pre ++ old =
        sym (take-append_left n s.file s.write_buffer short)
        ∙ ap (take n) whole_split
        ∙ take-length-append (pre ++ old) post in
      sym (take-append-drop n s.file)
      ∙ ap (λ l. l ++ drop n s.file) front
      ∙ append_assoc pre old (drop n s.file)

  post_split : post ≡ tail_of_file ++ s.write_buffer
  unfolding tail_of_file
  post_split =
      let n = length (pre ++ old) in
      sym (drop-length-append (pre ++ old) post)
      ∙ ap (drop n) (sym whole_split)
      ∙ drop-append_left n s.file s.write_buffer short

-- A patch of bytes that are all on disk, in a file below 2^63 bytes, replaces them in the stream and
-- nothing else; it fails only on a bad answer of the kernel.
pub pwrite_raw-Patches :
    (s : Io) (pre old new post : List ℕ)
    → IsStream s
    → stream s ≡ pre ++ (old ++ post)
    → length old ≡ length new
    → length pre + length old ≤ length s.file
    → length s.file < 2 ^ 63
    → Patches s pre new post (pwrite_raw (length pre) new s)
unfolding pwrite_raw
pwrite_raw-Patches s pre old new post v split e on_disk h = rw (ensure_open_lem s v.opened) (
    go (
      pwrite_loop-Overwrites s.answers (length pre) new s pre old
        (tail_of_file s pre old post split on_disk) (file_split s pre old post split on_disk) e refl
        (omega arith)))
  where
    go :
        {r : Result (Unit {0}) × Io}
        → Overwrites s s.answers pre old new (tail_of_file s pre old post split on_disk) r
        → Patches s pre new post r
    go (part x t n f bad) = unpatched x t bad
    go (whole t f same g) =
        let tail = tail_of_file s pre old post split on_disk in
        let new_stream : stream t ≡ pre ++ (new ++ post) =
          rw (f, same.buffered, post_split s pre old post split on_disk)
            (append_assoc pre (new ++ tail) s.write_buffer
              ∙ ap (λ l. pre ++ l) (append_assoc new tail s.write_buffer)) in
        let same_length : length t.file ≡ length s.file = omega (
          arith,
          ap length f,
          ap length (file_split s pre old post split on_disk),
          length-append pre (new ++ tail),
          length-append new tail,
          length-append pre (old ++ tail),
          length-append old tail,
        ) in
        patched t new_stream
          (record {
            opened = same.opened ∙ v.opened;
            at_end = same.offset ∙ v.at_end ∙ sym same_length;
            counted = omega (
              arith,
              same.counted,
              v.counted,
              length-append t.file t.write_buffer,
              length-append s.file s.write_buffer,
              ap length same.buffered,
              same_length,
            );
            room = rw (same.buffered, same.sized) v.room;
            sized = rw same.sized v.sized;
          })
          same_length g
