-- ===== src/Bag/Writer/Catalog.antt =====
-- The connections of a writer: their ids are their positions, and no topic has two.
use mrp_robo_baton_4p_no_ros.Base.{
  ℕ, suc, ◌+◌, ◌^◌, ◌<◌, ◌≡◌, refl, sym, ap, ◌∙◌, ◌⊎◌, inl, inr, Bool, true, false, not, ◌||◌, List,
  [], ◌∷◌, ◌++◌, length, length-append, bytes_eq, ◌==◌, arith, if◌then◌else◌,
}
use mrp_robo_baton_4p_no_ros.Base.Errors.{Exception, Result, ok, throws, logic_error}
use mrp_robo_baton_4p_no_ros.Bag.Encode.{to_uint32}
use mrp_robo_baton_4p_no_ros.Bag.Output.{Io, M, ◌>>◌, bind_result, ensure_open}
use mrp_robo_baton_4p_no_ros.Bag.Writer.{Writer, Connection, on_io, throw_when}
use mrp_robo_baton_4p_no_ros.Bag.Writer.Messages.{
  add_connection, has_topic, is_absolute, is_empty, index_reserve_for_connection, new_connection,
  push_connection,
}

abbrev pub HasIdsFrom : ℕ → List Connection → Type 0
HasIdsFrom n [] = Unit {0}
HasIdsFrom n (c ∷ cs) = (c.id ≡ n) × HasIdsFrom (suc n) cs

abbrev pub HasDistinctTopics : List Connection → Type 0
HasDistinctTopics [] = Unit {0}
HasDistinctTopics (c ∷ cs) = (has_topic c.topic cs ≡ false) × HasDistinctTopics cs

pub record IsCatalog (w : Writer) : Type 0 where
  pub ids : HasIdsFrom 0 w.connections
  pub topics : HasDistinctTopics w.connections
  pub reserves : length w.connection_index_reserves ≡ length w.connections

HasIdsFrom-append :
    (n : ℕ) (cs : List Connection) (c : Connection)
    → HasIdsFrom n cs
    → c.id ≡ n + length cs
    → HasIdsFrom n (cs ++ c ∷ [])
HasIdsFrom-append n [] c h e = (omega arith, tt)
HasIdsFrom-append n (b ∷ bs) c (h, hs) e = (h, HasIdsFrom-append (suc n) bs c hs (omega arith))

bytes_eq_sym_false : (xs ys : List ℕ) → bytes_eq xs ys ≡ false → bytes_eq ys xs ≡ false
bytes_eq_sym_false [] [] h = h
bytes_eq_sym_false [] (y ∷ ys) h = refl
bytes_eq_sym_false (x ∷ xs) [] h = refl
bytes_eq_sym_false (x ∷ xs) (y ∷ ys) h = ground (arith, bytes_eq_sym_false xs ys)

has_topic-append :
    (topic : List ℕ) (cs : List Connection) (c : Connection)
    → has_topic topic cs ≡ false
    → bytes_eq c.topic topic ≡ false
    → has_topic topic (cs ++ c ∷ []) ≡ false
has_topic-append topic [] c h e = ground arith
has_topic-append topic (b ∷ bs) c h e = ground (arith, has_topic-append topic bs c)

HasDistinctTopics-append :
    (cs : List Connection) (c : Connection)
    → HasDistinctTopics cs
    → has_topic c.topic cs ≡ false
    → HasDistinctTopics (cs ++ c ∷ [])
HasDistinctTopics-append [] c h e = (refl, tt)
HasDistinctTopics-append (b ∷ bs) c (h, hs) e = (
  has_topic-append b.topic bs c h (bytes_eq_sym_false b.topic c.topic (ground arith)),
  HasDistinctTopics-append bs c hs (ground arith),
)

-- What a guarded step does: it throws and leaves the writer, or the rest runs.
throw_when-elim :
    {A : Type 0} (P : Result A × Writer → Type 0) (b : Bool) (e : Exception) (k : M Writer A)
    (w : Writer)
    → P (throws e, w)
    → (b ≡ false → P (k w))
    → P ((throw_when b e >> k) w)
throw_when-elim P true e k w thrown runs = thrown
throw_when-elim P false e k w thrown runs = runs refl

abbrev open_or_throws : {A : Type 0} → M Writer A → Writer → Bool → Result A × Writer
open_or_throws k w b =
    let r : Result (Unit {0}) × Io =
      if b then (ok tt, w.io) else (throws (logic_error "rosbag writer is not open"), w.io) in
    bind_result r.0 (λ _. k) (record w { io = r.1 })

ensure_open-elim :
    {A : Type 0} (P : Result A × Writer → Type 0) (k : M Writer A) (w : Writer)
    → P (throws (logic_error "rosbag writer is not open"), w)
    → (w.io.is_open ≡ true → P (k w))
    → P ((on_io ensure_open >> k) w)
unfolding ensure_open
ensure_open-elim P k w thrown runs = go w.io.is_open runs
  where
    go : (b : Bool) → (b ≡ true → P (k w)) → P (open_or_throws k w b)
    go true runs = runs refl
    go false runs = thrown

to_uint32-small : (n : ℕ) → n < 2 ^ 32 → to_uint32 n ≡ n
to_uint32-small n h = omega arith

ids_end : (n : ℕ) → n < 2 ^ 32 → to_uint32 n ≡ 0 + n
ids_end n h = omega arith

module _ (topic datatype md5sum message_definition : List ℕ) (w : Writer) where
  abbrev pub connection : Connection
  connection = new_connection topic datatype md5sum message_definition w.connections

  abbrev after : Writer
  after = push_connection connection (index_reserve_for_connection topic datatype) w

  IsCatalog-push :
      IsCatalog w
      → length w.connections < 2 ^ 32
      → has_topic topic w.connections ≡ false
      → IsCatalog after
  IsCatalog-push v h fresh = record {
    ids = HasIdsFrom-append 0 w.connections connection v.ids (ids_end (length w.connections) h);
    topics = HasDistinctTopics-append w.connections connection v.topics fresh;
    reserves =
        length-append w.connection_index_reserves _
        ∙ ap (λ n. n + 1) v.reserves
        ∙ sym (length-append w.connections (connection ∷ []));
  }

  abbrev pub IsMetadata : Type 0
  IsMetadata = (is_absolute topic ≡ true) × (is_empty datatype ≡ false) × (length md5sum ≡ 32)

  -- What an answer of `add_connection` and the state behind it say.
  abbrev pub Answers : Result ℕ × Writer → Type 0
  Answers r =
      ((e : Exception) × (r ≡ (throws e, w)))
      ⊎ ((u : Writer) × (r ≡ (ok (length w.connections), u))
          × IsCatalog u
          × (u.connections ≡ w.connections ++ connection ∷ [])
          × (connection.id ≡ length w.connections)
          × (w.io.is_open ≡ true)
          × (w.chunk_is_open ≡ false)
          × IsMetadata
          × (has_topic topic w.connections ≡ false))

  -- A call of `add_connection` throws and changes nothing, or the writer is open and has no open
  -- chunk, the metadata are well formed and the topic is new: then the connection stands last, its id
  -- is the number of those before it, and the catalog stays sound.
  pub add_connection-IsCatalog :
      IsCatalog w
      → length w.connections < 2 ^ 32
      → Answers (add_connection topic datatype md5sum message_definition w)
  unfolding add_connection
  add_connection-IsCatalog v h = ensure_open-elim Answers _ w (inl (_, refl)) (λ opened.
      throw_when-elim Answers w.chunk_is_open _ _ w (inl (_, refl)) (λ no_chunk.
        throw_when-elim Answers
          (not (is_absolute topic) || is_empty datatype || not (length md5sum == 32)) _ _ w
          (inl (_, refl))
          (λ sound.
            throw_when-elim Answers (has_topic topic w.connections) _ _ w (inl (_, refl)) (λ fresh.
              inr (
                after,
                ap (λ n. (ok n, after)) (to_uint32-small (length w.connections) h),
                IsCatalog-push v h fresh,
                refl,
                to_uint32-small (length w.connections) h,
                opened,
                no_chunk,
                metadata (is_absolute topic) (is_empty datatype) (length md5sum) sound,
                fresh,
              )))))
    where
      metadata :
          (a b : Bool) (n : ℕ)
          → (not a || b || not (n == 32)) ≡ false
          → (a ≡ true) × (b ≡ false) × (n ≡ 32)
      metadata a b n h = ground arith
