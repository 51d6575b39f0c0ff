-- ===== src/Bag/Output/Flush.antt =====
-- What a flush leaves on disk, whatever the kernel answers.
use mrp_robo_baton_4p_no_ros.Base.{
  ℕ, zero, suc, ◌+◌, ◌-◌, ◌≡◌, refl, sym, ap, subst, ◌∙◌, List, [], ◌∷◌, ◌++◌, append-nil,
  append_assoc, length, take, drop, All, arith, length-append, take-append-drop, drop_all, take_all,
}
use mrp_robo_baton_4p_no_ros.Base.Errors.{Exception, Result, ok, throws}
use mrp_robo_baton_4p_no_ros.Bag.Output.{
  Io, WriteAnswer, interrupted, failed, wrote, accept_write, write_at, flush_loop,
}

-- An answer that is no error and makes progress, or that asks for another try.
abbrev pub IsGood : WriteAnswer → Type 0
IsGood interrupted = Unit {0}
IsGood failed = ⊥
IsGood (wrote zero) = ⊥
IsGood (wrote (suc n)) = Unit {0}

abbrev pub Benign : List WriteAnswer → Type 0
Benign = All IsGood

pub write_at_end : (bytes file : List ℕ) → write_at (length file) bytes file ≡ file ++ bytes
unfolding write_at
write_at_end bytes file =
    let none_left : length file - length file ≡ 0 = omega arith in
    rw
      (
        none_left,
        append-nil file,
        take_all (length file) file (omega arith),
        drop_all (length file + length bytes) file (omega arith),
        append-nil bytes,
      )
      refl

-- The fields that no write to the file touches.
pub record SameBuffering (s t : Io) : Type 0 where
  pub opened : t.is_open ≡ s.is_open
  pub sized : t.buffer_size ≡ s.buffer_size
  pub counted : t.logical_offset ≡ s.logical_offset

-- The outcome of a flush of `bytes`: all of them are on disk, or an answer was bad and some first
-- part of them is.
pub data Flushes (s : Io) (answers : List WriteAnswer) (bytes : List ℕ)
    : Result (Unit {0}) × Io → Type 0 where
  done :
      (t : Io)
      → t.file ≡ s.file ++ bytes
      → t.file_offset ≡ length t.file
      → t.write_buffer ≡ []
      → SameBuffering s t
      → (Benign answers → Benign t.answers)
      → Flushes s answers bytes (ok tt, t)
  torn :
      (e : Exception) (t : Io) (n : ℕ)
      → t.file ≡ s.file ++ take n bytes
      → ¬ Benign answers
      → Flushes s answers bytes (throws e, t)

pub take-append_more :
    (front back : List ℕ) (n : ℕ) → take (length front + n) (front ++ back) ≡ front ++ take n back
take-append_more [] back n = let e : 0 + n ≡ n = omega arith in rw e
take-append_more (x ∷ front) back n =
    let e : suc (length front) + n ≡ suc (length front + n) = omega arith in
    rw e (ap (λ t. x ∷ t) (take-append_more front back n))

-- Bytes that are already on disk come before those of the flush that goes on.
Flushes-after :
    (s u : Io) (answers answers' : List WriteAnswer) (front back : List ℕ)
    → u.file ≡ s.file ++ front
    → SameBuffering s u
    → (Benign answers → Benign answers')
    → {r : Result (Unit {0}) × Io} → Flushes u answers' back r
    → Flushes s answers (front ++ back) r
Flushes-after s u answers answers' front back e same good (done t f o w same' good') =
    done t (f ∙ rw e (append_assoc s.file front back)) o w
      (record {
        opened = same'.opened ∙ same.opened;
        sized = same'.sized ∙ same.sized;
        counted = same'.counted ∙ same.counted;
      })
      (λ g. good' (good g))
Flushes-after s u answers answers' front back e same good (torn x t n f bad) =
    torn x t (length front + n)
      (f ∙ rw (e, take-append_more front back n) (append_assoc s.file front (take n back)))
      (λ g. bad (good g))

-- A write at the end of the file.
accept_write_end :
    (bytes : List ℕ) (s : Io)
    → s.file_offset ≡ length s.file
    → ((accept_write bytes s).file ≡ s.file ++ bytes)
      × ((accept_write bytes s).file_offset ≡ length (accept_write bytes s).file)
unfolding accept_write
accept_write_end bytes s h =
    let file : write_at s.file_offset bytes s.file ≡ s.file ++ bytes =
      rw h (write_at_end bytes s.file) in
    (file, omega (arith, ap length file, length-append s.file bytes))

accept_write-SameBuffering : (bytes : List ℕ) (s : Io) → SameBuffering s (accept_write bytes s)
unfolding accept_write
accept_write-SameBuffering bytes s = record { opened = refl; sized = refl; counted = refl }

-- From the end of the file on, a flush writes all its bytes, in order, however the kernel splits and
-- interrupts the calls; it fails only on a bad answer, and then a first part of the bytes is written.
pub flush_loop-Flushes :
    (answers : List WriteAnswer) (bytes : List ℕ) (s : Io)
    → s.file_offset ≡ length s.file
    → Flushes s answers bytes (flush_loop answers bytes s)
unfolding flush_loop
flush_loop-Flushes [] [] s h =
    done _ (sym (append-nil s.file)) h refl (record { opened = refl; sized = refl; counted = refl })
      (λ g. g)
flush_loop-Flushes (a ∷ answers) [] s h =
    done _ (sym (append-nil s.file)) h refl (record { opened = refl; sized = refl; counted = refl })
      (λ g. g)
flush_loop-Flushes [] (b ∷ bs) s h =
    let (file, offset) = accept_write_end (b ∷ bs) s h in
    let same = accept_write-SameBuffering (b ∷ bs) s in
    done _ file offset refl
      (record { opened = same.opened; sized = same.sized; counted = same.counted }) (λ g. g)
flush_loop-Flushes (interrupted ∷ answers) (b ∷ bs) s h =
    Flushes-after s s (interrupted ∷ answers) answers [] (b ∷ bs) (sym (append-nil s.file))
      (record { opened = refl; sized = refl; counted = refl }) (λ g. g.1)
      (flush_loop-Flushes answers (b ∷ bs) s h)
flush_loop-Flushes (failed ∷ answers) (b ∷ bs) s h = torn _ _ 0 (sym (append-nil s.file)) (λ g. g.0)
flush_loop-Flushes (wrote zero ∷ answers) (b ∷ bs) s h =
    torn _ _ 0 (sym (append-nil s.file)) (λ g. g.0)
flush_loop-Flushes (wrote (suc n) ∷ answers) (b ∷ bs) s h =
    let front = b ∷ take n bs in
    let (file, offset) = accept_write_end front s h in
    subst
      (λ l.
        Flushes s (wrote (suc n) ∷ answers) l
          (flush_loop answers (drop n bs) (accept_write front s)))
      (take-append-drop (suc n) (b ∷ bs))
      (Flushes-after s (accept_write front s) (wrote (suc n) ∷ answers) answers front (drop n bs)
        file (accept_write-SameBuffering front s) (λ g. g.1)
        (flush_loop-Flushes answers (drop n bs) (accept_write front s) offset))
