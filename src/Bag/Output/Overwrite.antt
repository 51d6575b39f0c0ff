-- ===== src/Bag/Output/Overwrite.antt =====
-- The loop of `PwriteRaw` overwrites bytes inside the file, however the kernel splits the write.
use mrp_robo_baton_4p_no_ros.Base.{
  ℕ, zero, suc, ◌+◌, ◌-◌, ◌^◌, ◌≤◌, ◌<◌, ◌≡◌, refl, sym, ap, subst, ◌∙◌, List, [], ◌∷◌, ◌++◌,
  append-nil, append_assoc, length, take, drop, arith, length-append, take-append-drop, length-take,
  length-drop, take-length-append, drop-length-append, drop-add-append,
}
use mrp_robo_baton_4p_no_ros.Base.Errors.{Exception, Result, ok, throws}
use mrp_robo_baton_4p_no_ros.Bag.Output.{
  Io, WriteAnswer, interrupted, failed, wrote, write_at, accept_pwrite, pwrite_loop, M,
  check_offset,
}
use mrp_robo_baton_4p_no_ros.Bag.Output.Flush.{Benign, take-append_more}

write_at_inside :
    (pre old new post : List ℕ)
    → length old ≡ length new
    → write_at (length pre) new (pre ++ (old ++ post)) ≡ pre ++ (new ++ post)
unfolding write_at
write_at_inside pre old new post h =
    let no_gap : length pre - length (pre ++ (old ++ post)) ≡ 0 =
      omega (arith, length-append pre (old ++ post)) in
    rw
      (
        no_gap,
        append-nil (pre ++ (old ++ post)),
        take-length-append pre (old ++ post),
        drop-add-append pre (old ++ post) (length new),
        ← h,
        drop-length-append old post,
      )
      refl

-- Everything but the file, the answers and the statistics stays.
pub record SameOutput (s t : Io) : Type 0 where
  pub opened : t.is_open ≡ s.is_open
  pub offset : t.file_offset ≡ s.file_offset
  pub buffered : t.write_buffer ≡ s.write_buffer
  pub sized : t.buffer_size ≡ s.buffer_size
  pub counted : t.logical_offset ≡ s.logical_offset

pub data Overwrites (s : Io) (answers : List WriteAnswer) (pre old new post : List ℕ)
    : Result (Unit {0}) × Io → Type 0 where
  whole :
      (t : Io)
      → t.file ≡ pre ++ (new ++ post)
      → SameOutput s t
      → (Benign answers → Benign t.answers)
      → Overwrites s answers pre old new post (ok tt, t)
  part :
      (e : Exception) (t : Io) (n : ℕ)
      → t.file ≡ pre ++ (take n new ++ (drop n old ++ post))
      → ¬ Benign answers
      → Overwrites s answers pre old new post (throws e, t)

check_offset_lem :
    (answers : List WriteAnswer) (offset : ℕ) (round : M Io (Unit {0})) (s : Io)
    → offset < 2 ^ 63
    → check_offset answers offset round s ≡ round s
check_offset_lem answers offset round s h = ground arith

accept_pwrite_inside :
    (s : Io) (pre old new post : List ℕ) (offset : ℕ)
    → s.file ≡ pre ++ (old ++ post)
    → length old ≡ length new
    → offset ≡ length pre
    → ((accept_pwrite offset new s).file ≡ pre ++ (new ++ post))
      × SameOutput s (accept_pwrite offset new s)
unfolding accept_pwrite
accept_pwrite_inside s pre old new post offset f e o = (
  rw (f, o) (write_at_inside pre old new post e),
  record { opened = refl; offset = refl; buffered = refl; sized = refl; counted = refl },
)

SameOutput-answers :
    (s : Io) (answers : List WriteAnswer) → SameOutput s (record s { answers = answers })
SameOutput-answers s answers = record {
  opened = refl;
  offset = refl;
  buffered = refl;
  sized = refl;
  counted = refl;
}

-- Answers that were used up do not matter to the rest.
more_good :
    {s : Io} {pre old new post : List ℕ} (answers answers' : List WriteAnswer)
    → (Benign answers → Benign answers')
    → {r : Result (Unit {0}) × Io} → Overwrites s answers' pre old new post r
    → Overwrites s answers pre old new post r
more_good answers answers' good (whole t f same g) = whole t f same (λ h. g (good h))
more_good answers answers' good (part e t n f bad) = part e t n f (λ h. bad (good h))

SameOutput-trans : (s u t : Io) → SameOutput s u → SameOutput u t → SameOutput s t
SameOutput-trans s u t a b = record {
  opened = b.opened ∙ a.opened;
  offset = b.offset ∙ a.offset;
  buffered = b.buffered ∙ a.buffered;
  sized = b.sized ∙ a.sized;
  counted = b.counted ∙ a.counted;
}

-- A write of the front, then one of the rest.
Overwrites-after :
    (s u : Io) (answers : List WriteAnswer) (pre front back old_front old_back post : List ℕ)
    → length old_front ≡ length front
    → SameOutput s u
    → {r : Result (Unit {0}) × Io} → Overwrites u answers (pre ++ front) old_back back post r
    → Overwrites s answers pre (old_front ++ old_back) (front ++ back) post r
Overwrites-after s u answers pre front back old_front old_back post e same (whole t f same' g) =
    whole t
      (f
        ∙ append_assoc pre front (back ++ post)
        ∙ ap (λ l. pre ++ l) (sym (append_assoc front back post)))
      (SameOutput-trans s u t same same') g
Overwrites-after s u answers pre front back old_front old_back post e same (part x t n f bad) =
    let news = take-append_more front back n in
    let olds : drop (length front + n) (old_front ++ old_back) ≡ drop n old_back =
      ap (λ (m : ℕ). drop (m + n) (old_front ++ old_back)) (sym e)
      ∙ drop-add-append old_front old_back n in
    part x t (length front + n)
      (f
        ∙ append_assoc pre front (take n back ++ (drop n old_back ++ post))
        ∙ rw (news, olds)
            (ap (λ l. pre ++ l) (sym (append_assoc front (take n back) (drop n old_back ++ post)))))
      bad

pub pwrite_loop-Overwrites :
    (answers : List WriteAnswer) (offset : ℕ) (new : List ℕ) (s : Io) (pre old post : List ℕ)
    → s.file ≡ pre ++ (old ++ post)
    → length old ≡ length new
    → offset ≡ length pre
    → length pre + length new < 2 ^ 63
    → Overwrites s answers pre old new post (pwrite_loop answers offset new s)
unfolding pwrite_loop
pwrite_loop-Overwrites [] offset [] s pre [] post f e o h =
    whole (record s { answers = [] }) f (SameOutput-answers s _) (λ g. g)
pwrite_loop-Overwrites (a ∷ answers) offset [] s pre [] post f e o h =
    whole (record s { answers = a ∷ answers }) f (SameOutput-answers s _) (λ g. g)
pwrite_loop-Overwrites _ offset [] s pre (x ∷ old) post f e o h = absurd (omega arith)
pwrite_loop-Overwrites [] offset (b ∷ bs) s pre old post f e o h =
    let (file, same) = accept_pwrite_inside s pre old (b ∷ bs) post offset f e o in
    rw (check_offset_lem _ offset _ s (omega arith)) (
      whole _ file
        (record {
          opened = same.opened;
          offset = same.offset;
          buffered = same.buffered;
          sized = same.sized;
          counted = same.counted;
        })
        (λ g. g))
pwrite_loop-Overwrites (interrupted ∷ answers) offset (b ∷ bs) s pre old post f e o h =
    rw (check_offset_lem _ offset _ s (omega arith)) (
      more_good _ _ (λ g. g.1)
        (pwrite_loop-Overwrites answers offset (b ∷ bs) s pre old post f e o h))
pwrite_loop-Overwrites (failed ∷ answers) offset (b ∷ bs) s pre old post f e o h =
    rw (check_offset_lem _ offset _ s (omega arith)) (part _ _ 0 f (λ g. g.0))
pwrite_loop-Overwrites (wrote zero ∷ answers) offset (b ∷ bs) s pre old post f e o h =
    rw (check_offset_lem _ offset _ s (omega arith)) (part _ _ 0 f (λ g. g.0))
pwrite_loop-Overwrites (wrote (suc n) ∷ answers) offset (b ∷ bs) s pre old post f e o h =
    let k = length (b ∷ take n bs) in
    let old_front = length-take k old in
    let k_le : k ≤ length old = omega (arith, length-take n bs) in
    let split : old ++ post ≡ take k old ++ (drop k old ++ post) =
      ap (λ l. l ++ post) (sym (take-append-drop k old))
      ∙ append_assoc (take k old) (drop k old) post in
    let (file, same) =
      accept_pwrite_inside s pre (take k old) (b ∷ take n bs) (drop k old ++ post) offset
        (f ∙ ap (λ l. pre ++ l) split) (omega arith) o in
    let u = accept_pwrite offset (b ∷ take n bs) s in
    let rest = pwrite_loop answers (offset + k) (drop n bs) u in
    let ih =
      pwrite_loop-Overwrites answers (offset + k) (drop n bs) u (pre ++ b ∷ take n bs) (drop k old)
        post (file ∙ sym (append_assoc pre (b ∷ take n bs) (drop k old ++ post)))
        (omega (arith, length-drop k old, length-drop n bs, length-take n bs))
        (omega (arith, length-append pre (b ∷ take n bs)))
        (omega (arith, length-append pre (b ∷ take n bs), length-drop n bs, length-take n bs)) in
    let joined =
      Overwrites-after s u answers pre (b ∷ take n bs) (drop n bs) (take k old) (drop k old) post
        (omega arith) same ih in
    rw (check_offset_lem _ offset _ s (omega arith)) (
      subst (λ l. Overwrites s (wrote (suc n) ∷ answers) pre l (b ∷ bs) post rest)
        (take-append-drop k old)
        (subst
          (λ l. Overwrites s (wrote (suc n) ∷ answers) pre (take k old ++ drop k old) l post rest)
          (take-append-drop (suc n) (b ∷ bs)) (more_good _ _ (λ g. g.1) joined)))
