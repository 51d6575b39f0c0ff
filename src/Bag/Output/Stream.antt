-- ===== src/Bag/Output/Stream.antt =====
-- The buffered output as one growing stream: what is on disk, and behind it what is in the buffer.
use mrp_robo_baton_4p_no_ros.Base.{
  ℕ, ◌≤◌, ◌<◌, ◌≡◌, refl, sym, ap, ◌∙◌, true, List, [], ◌++◌, append-nil, append_assoc, length,
  take, drop, arith, length-append, take-append-drop, inl, inr, ◌⊎◌,
}
use mrp_robo_baton_4p_no_ros.Base.Errors.{Exception, Result, ok, throws}
use mrp_robo_baton_4p_no_ros.Bag.Output.{
  Io, ensure_open, flush_output_buffer, M, ◌>>=◌, bind_result,
}
use mrp_robo_baton_4p_no_ros.Bag.Output.Flush.{Benign, Flushes, done, torn, flush_loop-Flushes}

abbrev pub stream : Io → List ℕ
stream s = s.file ++ s.write_buffer

pub record IsStream (s : Io) : Type 0 where
  pub opened : s.is_open ≡ true
  pub at_end : s.file_offset ≡ length s.file
  pub counted : s.logical_offset ≡ length (stream s)
  pub room : length s.write_buffer ≤ s.buffer_size
  pub sized : 0 < s.buffer_size

-- `t` continues the stream of `s` by `bytes`, and has no less of it on disk.
pub record Extends (s t : Io) (bytes : List ℕ) : Type 0 where
  pub appended : stream t ≡ stream s ++ bytes
  pub valid : IsStream t
  pub flushed : length s.file ≤ length t.file
  pub benign : Benign s.answers → Benign t.answers

-- The outcome of writing `bytes`: they are appended, or the kernel answered badly and the file is a
-- first part of what it should have been.
pub data Appends (s : Io) (bytes : List ℕ) : Result (Unit {0}) × Io → Type 0 where
  appends : (t : Io) → Extends s t bytes → Appends s bytes (ok tt, t)
  fails :
      (e : Exception) (t : Io) (rest : List ℕ)
      → t.file ++ rest ≡ stream s ++ bytes
      → ¬ Benign s.answers
      → Appends s bytes (throws e, t)

pub Extends-trans :
    (s t u : Io) (xs ys : List ℕ) → Extends s t xs → Extends t u ys → Extends s u (xs ++ ys)
Extends-trans s t u xs ys a b = record {
  appended = b.appended ∙ rw a.appended (append_assoc (stream s) xs ys);
  valid = b.valid;
  flushed = omega (arith, a.flushed, b.flushed);
  benign = λ g. b.benign (a.benign g);
}

pub Appends-after :
    (s t : Io) (xs ys : List ℕ)
    → Extends s t xs
    → {r : Result (Unit {0}) × Io} → Appends t ys r
    → Appends s (xs ++ ys) r
Appends-after s t xs ys a (appends u b) = appends u (Extends-trans s t u xs ys a b)
Appends-after s t xs ys a (fails e u rest f bad) =
    fails e u rest (f ∙ rw a.appended (append_assoc (stream s) xs ys)) (λ g. bad (a.benign g))

-- One write after another.
pub Appends-bind :
    (s : Io) (xs ys : List ℕ) (m k : M Io (Unit {0}))
    → Appends s xs (m s)
    → ((t : Io) → IsStream t → Appends t ys (k t))
    → Appends s (xs ++ ys) ((m >>= λ _. k) s)
Appends-bind s xs ys m k first next = go (m s) first
  where
    go :
        (r : Result (Unit {0}) × Io)
        → Appends s xs r
        → Appends s (xs ++ ys) (bind_result r.0 (λ _. k) r.1)
    go r (appends t e) = Appends-after s t xs ys e (next t e.valid)
    go r (fails e t rest f bad) =
        fails e t (rest ++ ys)
          (sym (append_assoc t.file rest ys) ∙ ap (λ l. l ++ ys) f ∙ append_assoc (stream s) xs ys)
          bad

pub Extends-refl : (s : Io) → IsStream s → Extends s s []
Extends-refl s v = record {
  appended = sym (append-nil (stream s));
  valid = v;
  flushed = omega arith;
  benign = λ g. g;
}

-- A flush that succeeds leaves the buffer empty.
pub data Empties (s : Io) : Result (Unit {0}) × Io → Type 0 where
  empties : (t : Io) → Extends s t [] → t.write_buffer ≡ [] → Empties s (ok tt, t)
  stops :
      (e : Exception) (t : Io) (rest : List ℕ)
      → t.file ++ rest ≡ stream s
      → ¬ Benign s.answers
      → Empties s (throws e, t)

Empties-Flushes :
    (s : Io)
    → IsStream s
    → {r : Result (Unit {0}) × Io} → Flushes s s.answers s.write_buffer r
    → Empties s r
Empties-Flushes s v (done t f o w same g) =
    let all : stream t ≡ stream s ++ [] = rw (w, f, append-nil (stream s)) refl in
    empties t
      (record {
        appended = all;
        valid = record {
          opened = same.opened ∙ v.opened;
          at_end = o;
          counted = same.counted ∙ v.counted ∙ ap length (sym (all ∙ append-nil (stream s)));
          room = rw w (omega arith);
          sized = rw same.sized v.sized;
        };
        flushed = rw f (omega (arith, length-append s.file s.write_buffer));
        benign = g;
      })
      w
Empties-Flushes s v (torn e t n f bad) =
    stops e t (drop n s.write_buffer)
      (rw f (
        append_assoc s.file (take n s.write_buffer) (drop n s.write_buffer)
        ∙ ap (λ l. s.file ++ l) (take-append-drop n s.write_buffer)))
      bad

pub ensure_open_lem : (s : Io) → s.is_open ≡ true → ensure_open s ≡ (ok tt, s)
unfolding ensure_open
ensure_open_lem s h = ground arith

pub flush_output_buffer-Empties : (s : Io) → IsStream s → Empties s (flush_output_buffer s)
unfolding flush_output_buffer
flush_output_buffer-Empties s v =
    rw (ensure_open_lem s v.opened)
      (Empties-Flushes s v (flush_loop-Flushes s.answers s.write_buffer s v.at_end))

-- A flush of a sound output ends with the whole stream on disk, and appends nothing to it; it fails
-- only on a bad answer of the kernel, and then the file still is a first part of that stream.
pub flush_output_buffer_lem :
    (s : Io)
    → IsStream s
    → ((t : Io) × (flush_output_buffer s ≡ (ok tt, t)) × Extends s t [] × (t.file ≡ stream s))
      ⊎ ((e : Exception) × (t : Io) × (flush_output_buffer s ≡ (throws e, t))
          × ((rest : List ℕ) × (t.file ++ rest ≡ stream s))
          × ¬ Benign s.answers)
flush_output_buffer_lem s v = go (flush_output_buffer s) refl (flush_output_buffer-Empties s v)
  where
    go :
        (r : Result (Unit {0}) × Io)
        → flush_output_buffer s ≡ r
        → Empties s r
        → ((t : Io) × (flush_output_buffer s ≡ (ok tt, t)) × Extends s t [] × (t.file ≡ stream s))
          ⊎ ((e : Exception) × (t : Io) × (flush_output_buffer s ≡ (throws e, t))
              × ((rest : List ℕ) × (t.file ++ rest ≡ stream s))
              × ¬ Benign s.answers)
    go r q (empties t x w) =
        inl (t, q, x, sym (append-nil t.file) ∙ rw (← w) refl ∙ x.appended ∙ append-nil (stream s))
    go r q (stops e t rest f bad) = inr (e, t, q, (rest, f), bad)
