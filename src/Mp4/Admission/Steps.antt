-- ===== src/Mp4/Admission/Steps.antt =====
-- src/h264_mp4_recorder.cpp: what a frame whose time is good comes to: it is dropped or queued.
use mrp_robo_baton_4p_no_ros.Base.{
  ℕ, ◌+◌, ◌-◌, ◌≤◌, ◌<◌, ◌≡◌, ◌≢◌, ◌⊎◌, refl, ap₂, take, drop, if◌then◌else◌, sym, ◌∙◌, Bool, true,
  false, not, ◌&&◌, ◌||◌, some, List, [], ◌∷◌, ◌++◌, length, ltb, leb, if_both, String, arith, inl,
  inr, Bool-cases,
}
use mrp_robo_baton_4p_no_ros.Cli.Options.{is_empty}
use mrp_robo_baton_4p_no_ros.Mp4.AccessUnit.{H264AccessUnitInfo, parse_h264_access_unit}
use mrp_robo_baton_4p_no_ros.Mp4.Admission.{
  EncodedFrame, EncodedJob, Mp4Recorder, set_fatal, drop_encoded_frame, push_job,
  needs_parameter_sets, prepended, enqueue, observe_timed, max_encoded_frame_bytes, resync,
  count_admitted,
}

-- The bytes of all the frames.
unfoldable pub total_bytes : List EncodedJob → ℕ
total_bytes [] = 0
total_bytes (job ∷ jobs) = length job.payload + total_bytes jobs

pub total_bytes-append :
    (jobs : List EncodedJob) (job : EncodedJob)
    → total_bytes (jobs ++ job ∷ []) ≡ total_bytes jobs + length job.payload
unfolding total_bytes
total_bytes-append [] job = omega arith
total_bytes-append (x ∷ jobs) job = omega (arith, total_bytes-append jobs job)

-- The queue is within its two bounds, and its bytes are counted.
pub record IsBounded (r : Mp4Recorder) : Type 0 where
  pub depth : length r.encoded_queue ≤ r.encoded_queue_capacity
  pub counted : r.encoded_queue_current_bytes ≡ total_bytes r.encoded_queue
  pub bytes : r.encoded_queue_current_bytes ≤ r.encoded_queue_byte_capacity

-- The parameter sets that the recorder has for a frame: its own where it has one, and otherwise the
-- one that is kept for its camera.
abbrev pub sps_of : ℕ → EncodedFrame → Mp4Recorder → H264AccessUnitInfo → List ℕ
sps_of i frame r info =
    if info.has_sps
    then take (info.sps_end - info.sps_begin) (drop info.sps_begin frame.payload)
    else r.cached_sps i

abbrev pub pps_of : ℕ → EncodedFrame → Mp4Recorder → H264AccessUnitInfo → List ℕ
pps_of i frame r info =
    if info.has_pps
    then take (info.pps_end - info.pps_begin) (drop info.pps_begin frame.payload)
    else r.cached_pps i

-- A call leaves the queue alone, or it puts one frame behind the others: the frame as it came, and
-- nothing before it, unless the stream of its camera starts anew and the frame lacks a parameter set.
-- Then the two sets stand before it, the SPS first.
pub record Admits (i last : ℕ) (frame : EncodedFrame) (sps pps : H264AccessUnitInfo → List ℕ)
    (r r' : Mp4Recorder) : Type 0 where
  pub same_capacity : r'.encoded_queue_capacity ≡ r.encoded_queue_capacity
  pub same_byte_capacity : r'.encoded_queue_byte_capacity ≡ r.encoded_queue_byte_capacity
  pub cases :
      ((r'.encoded_queue ≡ r.encoded_queue)
        × (r'.encoded_queue_current_bytes ≡ r.encoded_queue_current_bytes)
        × (r'.resync_required i ≡ false → r.resync_required i ≡ false))
      ⊎ ((job : EncodedJob) × (before : List ℕ) × (info : H264AccessUnitInfo)
          × (parse_h264_access_unit frame.payload ≡ some info)
          × (r'.encoded_queue ≡ r.encoded_queue ++ job ∷ [])
          × (r'.encoded_queue_current_bytes ≡ r.encoded_queue_current_bytes + length job.payload)
          × (length r.encoded_queue < r.encoded_queue_capacity)
          × (r.encoded_queue_current_bytes + length job.payload ≤ r.encoded_queue_byte_capacity)
          × (job.camera_id ≡ i)
          × (job.timestamp_ns ≡ frame.timestamp_ns)
          × (last < job.timestamp_ns)
          × (job.key_frame ≡ info.has_idr)
          × (job.payload ≡ before ++ frame.payload)
          × (r.resync_required i ≡ false → before ≡ [])
          × (r.resync_required i ≡ true
              → (info.has_idr ≡ true)
                × (((before ≡ []) × (info.has_sps ≡ true) × (info.has_pps ≡ true))
                    ⊎ (((info.has_sps ≡ false) ⊎ (info.has_pps ≡ false))
                        × (before ≡ sps info ++ pps info)
                        × (sps info ≢ [])
                        × (pps info ≢ [])))))

pub Admits-nothing :
    (i last : ℕ) (frame : EncodedFrame) (sps pps : H264AccessUnitInfo → List ℕ) (r r' : Mp4Recorder)
    → r'.encoded_queue_capacity ≡ r.encoded_queue_capacity
    → r'.encoded_queue_byte_capacity ≡ r.encoded_queue_byte_capacity
    → r'.encoded_queue ≡ r.encoded_queue
    → r'.encoded_queue_current_bytes ≡ r.encoded_queue_current_bytes
    → (r'.resync_required i ≡ false → r.resync_required i ≡ false)
    → Admits i last frame sps pps r r'
Admits-nothing i last frame sps pps r r' capacity byte_capacity queue bytes again = record {
  same_capacity = capacity;
  same_byte_capacity = byte_capacity;
  cases = inl (queue, bytes, again);
}

-- A frame that is dropped.
drop_encoded_frame-Admits :
    (i last : ℕ) (frame : EncodedFrame) (sps pps : H264AccessUnitInfo → List ℕ)
    (full byte_full : Bool) (r : Mp4Recorder)
    → Admits i last frame sps pps r (drop_encoded_frame i full byte_full r)
unfolding drop_encoded_frame
drop_encoded_frame-Admits i last frame sps pps full byte_full r =
    Admits-nothing i last frame sps pps r _ refl refl refl refl (λ e. e)

pub set_fatal-Admits :
    (i last : ℕ) (frame : EncodedFrame) (sps pps : H264AccessUnitInfo → List ℕ) (message : String)
    (r : Mp4Recorder)
    → Admits i last frame sps pps r (set_fatal message (drop_encoded_frame i false false r))
unfolding drop_encoded_frame set_fatal
set_fatal-Admits i last frame sps pps message r =
    Admits-nothing i last frame sps pps r _ refl refl refl refl (λ e. e)

resync-Admits :
    (i last : ℕ) (frame : EncodedFrame) (sps pps : H264AccessUnitInfo → List ℕ)
    (full byte_full : Bool) (r : Mp4Recorder)
    → Admits i last frame sps pps r (resync i (drop_encoded_frame i full byte_full r))
unfolding drop_encoded_frame
resync-Admits i last frame sps pps full byte_full r =
    Admits-nothing i last frame sps pps r _ refl refl refl refl (λ e. ground arith)

is_empty-false : (xs : List ℕ) → is_empty xs ≡ false → xs ≢ []
is_empty-false [] h e = cc
is_empty-false (x ∷ xs) h e = cc

module _ (i last : ℕ) (frame : EncodedFrame) (sps pps : H264AccessUnitInfo → List ℕ)
    (info : H264AccessUnitInfo) (parsed : parse_h264_access_unit frame.payload ≡ some info)
    (later : last < frame.timestamp_ns) where
  abbrev AdmitsFrom : Mp4Recorder → Mp4Recorder → Type 0
  AdmitsFrom r r' = Admits i last frame sps pps r r'

  -- The sets that the recorder keeps are the two.
  abbrev HasSets : Mp4Recorder → Type 0
  HasSets r = (r.cached_sps i ≡ sps info) × (r.cached_pps i ≡ pps info)

  goes_on : (r : Mp4Recorder) → r.resync_required i ≡ false → prepended i info r ≡ []
  goes_on r on = ground arith

  both_there :
      (r : Mp4Recorder)
      → (info.has_sps && info.has_pps) ≡ true
      → (prepended i info r ≡ []) × (info.has_sps ≡ true) × (info.has_pps ≡ true)
  both_there r both = (ground arith, ground arith, ground arith)

  one_missing :
      (r : Mp4Recorder)
      → HasSets r
      → info.has_idr ≡ true
      → (needs_parameter_sets i info r && (is_empty (r.cached_sps i) || is_empty (r.cached_pps i)))
        ≡ false
      → r.resync_required i ≡ true
      → (info.has_sps && info.has_pps) ≡ false
      → ((info.has_sps ≡ false) ⊎ (info.has_pps ≡ false))
        × (prepended i info r ≡ sps info ++ pps info)
        × (sps info ≢ [])
        × (pps info ≢ [])
  one_missing r (same_sps, same_pps) idr sets anew lacking =
      let needs : needs_parameter_sets i info r ≡ true = ground arith in
      let some_sps : is_empty (r.cached_sps i) ≡ false = ground arith in
      let some_pps : is_empty (r.cached_pps i) ≡ false = ground arith in
      (
        ground arith,
        rw needs (ap₂ (λ a b. a ++ b) same_sps same_pps),
        rw (sym same_sps) (is_empty-false (r.cached_sps i) some_sps),
        rw (sym same_pps) (is_empty-false (r.cached_pps i) some_pps),
      )

  starts_anew :
      (r : Mp4Recorder)
      → HasSets r
      → (r.resync_required i && not info.has_idr) ≡ false
      → (needs_parameter_sets i info r && (is_empty (r.cached_sps i) || is_empty (r.cached_pps i)))
        ≡ false
      → r.resync_required i ≡ true
      → (info.has_idr ≡ true)
        × (((prepended i info r ≡ []) × (info.has_sps ≡ true) × (info.has_pps ≡ true))
            ⊎ (((info.has_sps ≡ false) ⊎ (info.has_pps ≡ false))
                × (prepended i info r ≡ sps info ++ pps info)
                × (sps info ≢ [])
                × (pps info ≢ [])))
  starts_anew r has key sets anew =
      let idr : info.has_idr ≡ true = ground arith in
      (
        idr,
        elim (Bool-cases (info.has_sps && info.has_pps)) [
          | inl both ↦ inl (both_there r both)
          | inr lacking ↦ inr (one_missing r has idr sets anew lacking)
        ],
      )

  enqueue-Admits :
      (r : Mp4Recorder)
      → HasSets r
      → (r.resync_required i && not info.has_idr) ≡ false
      → (needs_parameter_sets i info r && (is_empty (r.cached_sps i) || is_empty (r.cached_pps i)))
        ≡ false
      → AdmitsFrom r (enqueue i frame info r)
  unfolding enqueue
  enqueue-Admits r has key sets =
      if_both (AdmitsFrom r) (leb r.encoded_queue_capacity (length r.encoded_queue)) _ _
        (λ _. resync-Admits i last frame sps pps true false r)
        (λ room.
          if_both (AdmitsFrom r)
            (ltb r.encoded_queue_byte_capacity (length (prepended i info r ++ frame.payload))
              || ltb (r.encoded_queue_byte_capacity - length (prepended i info r ++ frame.payload))
                  r.encoded_queue_current_bytes)
            _ _ (λ _. resync-Admits i last frame sps pps false true r)
            (λ fits.
              unfold push_job in
              unfold count_admitted in
              record {
                same_capacity = refl;
                same_byte_capacity = refl;
                cases = inr (
                  record {
                    camera_id = i;
                    timestamp_ns = frame.timestamp_ns;
                    key_frame = info.has_idr;
                    payload = prepended i info r ++ frame.payload;
                  },
                  prepended i info r,
                  info,
                  parsed,
                  refl,
                  refl,
                  ground arith,
                  ground arith,
                  refl,
                  refl,
                  later,
                  refl,
                  refl,
                  goes_on r,
                  starts_anew r has key sets,
                );
              }))

  pub observe_timed-Admits :
      (r : Mp4Recorder) → HasSets r → AdmitsFrom r (observe_timed i frame info r)
  unfolding observe_timed
  observe_timed-Admits r has =
      if_both (AdmitsFrom r) (r.resync_required i && not info.has_idr) _ _
        (λ _. drop_encoded_frame-Admits i last frame sps pps false false r)
        (λ key.
          if_both (AdmitsFrom r)
            (needs_parameter_sets i info r
              && (is_empty (r.cached_sps i) || is_empty (r.cached_pps i)))
            _ _ (λ _. drop_encoded_frame-Admits i last frame sps pps false false r)
            (λ sets.
              if_both (AdmitsFrom r)
                (ltb (max_encoded_frame_bytes - length frame.payload) (length (prepended i info r)))
                _ _
                (λ _.
                  set_fatal-Admits i last frame sps pps
                    "H264 access unit with parameter sets is too large" r)
                (λ _. enqueue-Admits r has key sets)))

-- The fields that a step before the admission changes are not those that it is about.
pub Admits-from :
    (i last : ℕ) (frame : EncodedFrame) (sps pps : H264AccessUnitInfo → List ℕ)
    (r r' r'' : Mp4Recorder)
    → r'.encoded_queue_capacity ≡ r.encoded_queue_capacity
    → r'.encoded_queue_byte_capacity ≡ r.encoded_queue_byte_capacity
    → r'.encoded_queue ≡ r.encoded_queue
    → r'.encoded_queue_current_bytes ≡ r.encoded_queue_current_bytes
    → r'.resync_required i ≡ r.resync_required i
    → Admits i last frame sps pps r' r''
    → Admits i last frame sps pps r r''
Admits-from i last frame sps pps r r' r'' capacity byte_capacity queue bytes again a = record {
  same_capacity = a.same_capacity ∙ capacity;
  same_byte_capacity = a.same_byte_capacity ∙ byte_capacity;
  cases = rw (sym capacity, sym byte_capacity, sym queue, sym bytes, sym again) a.cases;
}
