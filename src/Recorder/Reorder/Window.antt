-- ===== src/Recorder/Reorder/Window.antt =====
-- src/sensor_bag_recorder.cpp: the reorder ring is a window of the record order that starts at the
-- next turn, and its count is that of the frames which wait in it.
use mrp_robo_baton_4p_no_ros.Base.{
  ℕ, ◌+◌, ◌%◌, ◌≤◌, ◌<◌, ◌≡◌, ◌≢◌, ◌⊎◌, refl, subst, Bool, true, false, not, ◌&&◌, ltb, ◌==◌, arith,
  inl, inr, Bool-cases,
}
use mrp_robo_baton_4p_no_ros.Base.Errors.{ok, throws, runtime_error}
use mrp_robo_baton_4p_no_ros.Base.Slots.{update, tally, tally-update}
use mrp_robo_baton_4p_no_ros.Recorder.{EncodedFrameJob, EncodedFrameSlot, encoded_queue_capacity}
use mrp_robo_baton_4p_no_ros.Recorder.Control.{Control}
use mrp_robo_baton_4p_no_ros.Recorder.Reorder.{
  EncodedQueue, slot_at, may_publish, store_encoded_frame, publish_encoded_frame,
}

-- A slot that holds a frame to be written.
abbrev pub is_live : EncodedFrameSlot → Bool
is_live slot = slot.occupied && not slot.evicted

-- An occupied slot belongs to an order of the window that starts at `next`, and a frame in it has
-- that order.
pub record IsPlaced (next i : ℕ) (slot : EncodedFrameSlot) : Type 0 where
  pub from_next : slot.occupied ≡ true → next ≤ slot.record_order
  pub in_window : slot.occupied ≡ true → slot.record_order < next + encoded_queue_capacity
  pub at_index : slot.occupied ≡ true → slot.record_order % encoded_queue_capacity ≡ i
  pub labelled : is_live slot ≡ true → slot.job.job.record_order ≡ slot.record_order

pub record IsWindow (q : EncodedQueue) : Type 0 where
  pub placed : (i : ℕ) → i < encoded_queue_capacity → IsPlaced q.next_write_order i (q.slots i)
  pub counted : q.count ≡ tally is_live encoded_queue_capacity q.slots

-- One slot is written, and the window stays or moves on.
pub IsPlaced-update :
    (next next' i : ℕ) (slots : ℕ → EncodedFrameSlot) (slot : EncodedFrameSlot)
    → ((j : ℕ) → j < encoded_queue_capacity → IsPlaced next j (slots j))
    → IsPlaced next' i slot
    → ((j : ℕ)
        → j < encoded_queue_capacity
        → j ≢ i
        → IsPlaced next j (slots j)
        → IsPlaced next' j (slots j))
    → (j : ℕ) → j < encoded_queue_capacity
    → IsPlaced next' j (update slots i slot j)
IsPlaced-update next next' i slots slot old new moved j below = elim (Bool-cases (i == j)) [
  | inl here ↦ rw here (subst (λ k. IsPlaced next' k slot) (ground arith) new)
  | inr there ↦ rw there (moved j below (ground arith) (old j below))
]

pub store_encoded_frame-IsWindow :
    (now_ns : ℕ) (encoded : EncodedFrameJob) (q : EncodedQueue)
    → IsWindow q
    → q.next_write_order ≤ encoded.job.record_order
    → encoded.job.record_order < q.next_write_order + encoded_queue_capacity
    → (slot_at encoded.job.record_order q).occupied ≡ false
    → IsWindow (store_encoded_frame now_ns encoded q)
unfolding store_encoded_frame
store_encoded_frame-IsWindow now_ns encoded q window low high free = record {
  placed =
      IsPlaced-update q.next_write_order q.next_write_order
        (encoded.job.record_order % encoded_queue_capacity) q.slots _ window.placed
        (record {
          from_next = λ _. low;
          in_window = λ _. high;
          at_index = λ _. refl;
          labelled = λ _. refl;
        })
        (λ j below apart same. same);
  counted =
      let grown =
        tally-update is_live encoded_queue_capacity q.slots
          (encoded.job.record_order % encoded_queue_capacity)
          (record {
            record_order = encoded.job.record_order;
            occupied = true;
            evicted = false;
            job = record encoded { queued_timestamp_ns = now_ns };
          })
          (omega arith) in
      ground (arith, window.counted);
}

-- When the wait of a publisher is over, its frame is stored in its place and counted, and the window
-- stays well formed; or a fatal error or an order that was passed is reported, and nothing changes.
-- A duplicate order and a broken invariant are never reported.
pub publish_encoded_frame-IsWindow :
    (now_ns : ℕ) (control : Control) (encoded : EncodedFrameJob) (q : EncodedQueue)
    → IsWindow q
    → may_publish control.fatal_error encoded.job.record_order q ≡ true
    → ((control.fatal_error ≡ true)
        × (publish_encoded_frame now_ns control encoded q
            ≡ throws (runtime_error control.error_message)))
      ⊎ ((encoded.job.record_order < q.next_write_order)
          × (publish_encoded_frame now_ns control encoded q
              ≡ throws (runtime_error "late bag recorder record order")))
      ⊎ ((q' : EncodedQueue) × (publish_encoded_frame now_ns control encoded q ≡ ok q')
          × IsWindow q'
          × (q'.count ≡ q.count + 1)
          × (q'.next_write_order ≡ q.next_write_order)
          × ((slot_at encoded.job.record_order q').job.image_payload ≡ encoded.image_payload)
          × ((slot_at encoded.job.record_order q').job.metadata_payload ≡ encoded.metadata_payload)
          × ((slot_at encoded.job.record_order q').job.job ≡ encoded.job))
unfolding may_publish publish_encoded_frame
publish_encoded_frame-IsWindow now_ns control encoded q window waited =
    elim (Bool-cases control.fatal_error) [
      | inl fatal ↦ inl (fatal, ground arith)
      | inr fine ↦ elim (Bool-cases (ltb encoded.job.record_order q.next_write_order)) [
        | inl late ↦ inr (inl (ground arith, ground arith))
        | inr turn ↦
            let free : (slot_at encoded.job.record_order q).occupied ≡ false = ground arith in
            let near : encoded.job.record_order < q.next_write_order + encoded_queue_capacity =
              ground arith in
            inr (
              inr (
                store_encoded_frame now_ns encoded q,
                rw (fine, turn, free) refl,
                store_encoded_frame-IsWindow now_ns encoded q window (ground arith) near free,
                unfold store_encoded_frame in refl,
                unfold store_encoded_frame in refl,
                unfold store_encoded_frame in ground arith,
                unfold store_encoded_frame in ground arith,
                unfold store_encoded_frame in ground arith,
              ))
      ]
    ]
