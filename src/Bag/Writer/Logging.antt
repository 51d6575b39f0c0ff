-- ===== src/Bag/Writer/Logging.antt =====
-- Steps of the writer that append to its output and change nothing else of it.
use mrp_robo_baton_4p_no_ros.Base.{
  ℕ, ◌≤◌, ◌≡◌, Bool, true, false, refl, sym, ap, ap₂, ◌<◌, subst, ◌∙◌, List, [], ◌∷◌, ◌++◌,
  append-nil, length, arith,
}
use mrp_robo_baton_4p_no_ros.Base.Errors.{Exception, Result, ok}
use mrp_robo_baton_4p_no_ros.Bag.Meter.{Meter, LatencyTarget, observe_writer_latency}
use mrp_robo_baton_4p_no_ros.Bag.Output.{
  Io, M, lift_result, ◌>>=◌, bind_result, ◌>>◌, steady_now_ns, next_reading, on_meter,
  write_raw_buffers,
}
use mrp_robo_baton_4p_no_ros.Bag.Output.Flush.{Benign}
use mrp_robo_baton_4p_no_ros.Bag.Output.Stream.{
  stream, IsStream, Extends, Appends, appends, fails, Extends-trans,
}
use mrp_robo_baton_4p_no_ros.Bag.Output.Copying.{write_raw_buffers-Appends, concat}
use mrp_robo_baton_4p_no_ros.Bag.Writer.{Writer, on_io, throw_when, elapsed, observe_since}

-- From a sound output and good answers the step succeeds, and appends `bytes`.
abbrev pub Logs : {A : Type 0} → List ℕ → M Writer A → Type 0
Logs {A} bytes m =
    (w : Writer)
    → IsStream w.io
    → Benign w.io.answers
    → (a : A) × (t : Io) × (m w ≡ (ok a, record w { io = t })) × Extends w.io t bytes

pub Logs-bind :
    {A B : Type 0} (xs ys : List ℕ) (m : M Writer A) (f : A → M Writer B)
    → Logs xs m
    → ((a : A) → Logs ys (f a))
    → Logs (xs ++ ys) (m >>= f)
Logs-bind xs ys m f first next w v good =
    let (a, t, ran, x) = first w v good in
    let (b, u, ran', y) = next a (record w { io = t }) x.valid (x.benign good) in
    (b, u, ap (λ r. bind_result r.0 f r.1) ran ∙ ran', Extends-trans w.io t u xs ys x y)

pub Logs-lift :
    {A B : Type 0} (r : Result A) (a : A) (f : A → M Writer B) (xs : List ℕ)
    → r ≡ ok a
    → Logs xs (f a)
    → Logs xs (lift_result r >>= f)
Logs-lift r a f xs e next w v good =
    let (b, t, ran, x) = next w v good in (b, t, ap (λ q. bind_result q f w) e ∙ ran, x)

-- The clock and the statistics are no part of the stream.
unrelated :
    (s t : Io)
    → t.is_open ≡ s.is_open
    → t.file ≡ s.file
    → t.file_offset ≡ s.file_offset
    → t.write_buffer ≡ s.write_buffer
    → t.buffer_size ≡ s.buffer_size
    → t.logical_offset ≡ s.logical_offset
    → t.answers ≡ s.answers
    → IsStream s
    → Extends s t []
unrelated s t o f p b z l a v = record {
  appended = same ∙ sym (append-nil (stream s));
  valid = record {
    opened = o ∙ v.opened;
    at_end = p ∙ v.at_end ∙ ap length (sym f);
    counted = l ∙ v.counted ∙ ap length (sym same);
    room =
        subst (λ n. length t.write_buffer ≤ n) (sym z)
          (subst (λ bs. length bs ≤ s.buffer_size) (sym b) v.room);
    sized = subst (λ n. 0 < n) (sym z) v.sized;
  };
  flushed = subst (λ l. length s.file ≤ length l) (sym f) (omega arith);
  benign = subst Benign (sym a);
}
  where
    same : stream t ≡ stream s
    same = ap₂ (λ x y. x ++ y) f b

steady_now_ns_step :
    (s : Io) → (n : ℕ) × (ts : List ℕ) × (steady_now_ns s ≡ (ok n, record s { clock = ts }))
unfolding steady_now_ns
steady_now_ns_step s = go s.clock
  where
    go :
        (clock : List ℕ)
        → (n : ℕ) × (ts : List ℕ) × (next_reading clock s ≡ (ok n, record s { clock = ts }))
    go [] = (0, s.clock, refl)
    go (t ∷ ts) = (t, ts, refl)

pub Logs-clock : Logs [] (on_io steady_now_ns)
Logs-clock w v good =
    let (n, ts, e) = steady_now_ns_step w.io in
    (
      n,
      record (w.io) { clock = ts },
      ap (λ r. (r.0, record w { io = r.1 })) e,
      unrelated w.io (record (w.io) { clock = ts }) refl refl refl refl refl refl refl v,
    )

pub Logs-meter : (f : Meter → Meter) → Logs [] (on_io (on_meter f))
Logs-meter f w v good =
    let t : Io = record (w.io) { meter = f w.io.meter } in
    (tt, t, refl, unrelated w.io t refl refl refl refl refl refl refl v)

pub Logs-observe : (target : LatencyTarget) (start : ℕ) → Logs [] (observe_since target start)
unfolding observe_since
Logs-observe target start =
    Logs-bind [] [] (on_io steady_now_ns) _ Logs-clock
      (λ now. Logs-meter (observe_writer_latency target (elapsed start now)))

pub Logs-buffers :
    (buffers : List (List ℕ)) → Logs (concat buffers) (on_io (write_raw_buffers buffers))
Logs-buffers buffers w v good =
    go (write_raw_buffers buffers w.io) refl (write_raw_buffers-Appends buffers w.io v)
  where
    go :
        (r : Result (Unit {0}) × Io)
        → write_raw_buffers buffers w.io ≡ r
        → Appends w.io (concat buffers) r
        → (a : Unit {0}) × (t : Io) × (on_io (write_raw_buffers buffers) w
            ≡ (ok a, record w { io = t }))
          × Extends w.io t (concat buffers)
    go r e (appends t x) = (tt, t, ap (λ q. (q.0, record w { io = q.1 })) e, x)
    go r e (fails x t rest f bad) = absurd (bad good)

pub Logs-cast : {A : Type 0} {m : M Writer A} (xs ys : List ℕ) → xs ≡ ys → Logs xs m → Logs ys m
Logs-cast {m} xs ys e logs = subst (λ bytes. Logs bytes m) e logs

-- A step that appends nothing before, or after, one that does.
pub Logs-after :
    {A B : Type 0} (xs : List ℕ) (m : M Writer A) (f : A → M Writer B)
    → Logs [] m
    → ((a : A) → Logs xs (f a))
    → Logs xs (m >>= f)
Logs-after xs m f = Logs-bind [] xs m f

pub Logs-before :
    {A B : Type 0} (xs : List ℕ) (m : M Writer A) (f : A → M Writer B)
    → Logs xs m
    → ((a : A) → Logs [] (f a))
    → Logs xs (m >>= f)
Logs-before xs m f first next =
    Logs-cast (xs ++ []) xs (append-nil xs) (Logs-bind xs [] m f first next)

-- A guard that does not hold lets the rest run.
pub throw_when-passes :
    {A : Type 0} (b : Bool) (e : Exception) (k : M Writer A) (w : Writer)
    → b ≡ false
    → (throw_when b e >> k) w ≡ k w
throw_when-passes true e k w h = cc
throw_when-passes false e k w h = refl

pub bind-ok :
    {A B : Type 0} (m : M Writer A) (f : A → M Writer B) (a : A) (w t : Writer)
    → m w ≡ (ok a, t)
    → (m >>= f) w ≡ f a t
bind-ok m f a w t h = ap (λ r. bind_result r.0 f r.1) h
