-- ===== src/Playback/Streams.antt =====
-- A delivery leaves one row of evidence, whichever callbacks fire and how often.
use creator_first_platform.Base.{
  ℕ, ◌+◌, ◌≡◌, ◌==◌, refl, ◌∙◌, true, false, List, [], ◌∷◌, arith, none, some, Option, Option-cases,
  inl, inr,
}
use creator_first_platform.Base.Table.{select, update, insert}
use native.Mathlib.Nat.{add_assoc, add-zero}
use creator_first_platform.Playback.Store.{
  Evidence, PlaybackStore, active, is_running, record_evidence,
}
use creator_first_platform.Playback.Deliver.{
  Delivery, StreamEvent, chunk, finished, evidence_of, stream_event, stream,
}

-- The bytes of the chunks before the first callback that finishes.
abbrev pub bytes_before_finish : List StreamEvent → ℕ
bytes_before_finish [] = 0
bytes_before_finish (chunk n ∷ es) = n + bytes_before_finish es
bytes_before_finish (finished _ _ ∷ es) = 0

abbrev pub first_finish : List StreamEvent → Option (ℕ × ℕ)
first_finish [] = none
first_finish (chunk _ ∷ es) = first_finish es
first_finish (finished now id ∷ es) = some (now, id)

-- what `stream` comes to: one call of `record_evidence`, at the first finish
abbrev finished_store : Delivery → List StreamEvent → Option (ℕ × ℕ) → PlaybackStore → PlaybackStore
finished_store d es none s = s
finished_store d es (some (now, id)) s =
    record_evidence
      (evidence_of (record d { bytes_delivered = d.bytes_delivered + bytes_before_finish es }) now
        id)
      s

finished_store-chunk :
    (d : Delivery) (n : ℕ) (es : List StreamEvent) (at : Option (ℕ × ℕ)) (s : PlaybackStore)
    → finished_store (record d { bytes_delivered = d.bytes_delivered + n }) es at s
      ≡ finished_store d (chunk n ∷ es) at s
finished_store-chunk d n es none s = refl
finished_store-chunk d n es (some (now, id)) s = rw (add_assoc d.bytes_delivered n) refl

chunk_read :
    (n : ℕ) (d : Delivery) (s : PlaybackStore)
    → stream_event (chunk n) (d, s) ≡ (record d { bytes_delivered = d.bytes_delivered + n }, s)
unfolding stream_event
chunk_read n d s = refl

finished_again :
    (now id : ℕ) (d : Delivery) (s : PlaybackStore)
    → d.recorded ≡ true
    → stream_event (finished now id) (d, s) ≡ (d, s)
unfolding stream_event
finished_again now id d s h = ground arith

finished_first :
    (now id : ℕ) (d : Delivery) (s : PlaybackStore)
    → d.recorded ≡ false
    → stream_event (finished now id) (d, s)
      ≡ (record d { recorded = true }, record_evidence (evidence_of d now id) s)
unfolding stream_event
finished_first now id d s h = ground arith

stream_recorded :
    (es : List StreamEvent) (d : Delivery) (s : PlaybackStore)
    → d.recorded ≡ true
    → (stream es (d, s)).1 ≡ s
unfolding stream
stream_recorded [] d s h = refl
stream_recorded (chunk n ∷ es) d s h =
    simp (chunk_read n d s)
      (stream_recorded es (record d { bytes_delivered = d.bytes_delivered + n }) s h)
stream_recorded (finished now id ∷ es) d s h =
    simp (finished_again now id d s h) (stream_recorded es d s h)

stream_finishes :
    (es : List StreamEvent) (d : Delivery) (s : PlaybackStore)
    → d.recorded ≡ false
    → (stream es (d, s)).1 ≡ finished_store d es (first_finish es) s
unfolding stream
stream_finishes [] d s h = refl
stream_finishes (chunk n ∷ es) d s h = simp (chunk_read n d s) (
    stream_finishes es (record d { bytes_delivered = d.bytes_delivered + n }) s h
    ∙ finished_store-chunk d n es (first_finish es) s)
stream_finishes (finished now id ∷ es) d s h =
    simp (finished_first now id d s h)
      (stream_recorded es (record d { recorded = true }) _ refl ∙ rw add-zero refl)

-- The row of evidence for the bytes up to the first finish
abbrev pub evidence_row : Delivery → List StreamEvent → ℕ → ℕ → Evidence
evidence_row d es now id = record {
  evidence_id = id;
  session_id = d.session.session_id;
  decision_id = d.session.decision_id;
  track_id = d.session.track_id;
  response_status = d.status;
  bytes_delivered = d.bytes_delivered + bytes_before_finish es;
  started_at = d.started_at;
  completed_at = now;
}

-- The store with that row as its last evidence, and its bytes on the session, if not ended
abbrev pub delivered_store :
    Delivery → List StreamEvent → Option (ℕ × ℕ) → PlaybackStore → PlaybackStore
delivered_store d es none s = s
delivered_store d es (some (now, id)) s = record s {
  delivery_evidence = insert (evidence_row d es now id) s.delivery_evidence;
  sessions =
      update (is_running d.session.session_id)
        (λ r. record r {
          bytes_delivered = r.bytes_delivered + (d.bytes_delivered + bytes_before_finish es);
          state = active;
        })
        s.sessions;
}

-- Whatever the callbacks of a delivery that has no record yet, in whatever order and however
-- often, where no evidence has the identifier of the first callback that finishes: the store that
-- it leaves is the store before with one more row of evidence, for the bytes up to that callback,
-- and with these bytes added to its session, which is then ACTIVE, unless it has ended; or
-- unchanged, if no callback finishes.
pub stream_once :
    (es : List StreamEvent) (d : Delivery) (s : PlaybackStore)
    → d.recorded ≡ false
    → ((now id : ℕ)
        → first_finish es ≡ some (now, id)
        → select (λ e. e.evidence_id == id) s.delivery_evidence ≡ none)
    → (stream es (d, s)).1 ≡ delivered_store d es (first_finish es) s
unfolding record_evidence
stream_once es d s h fresh = stream_finishes es d s h ∙ elim (Option-cases (first_finish es)) [
  | inl none_yet ↦ rw none_yet refl
  | inr ((now, id), at) ↦ let missing = fresh now id at in rw (at, missing) refl
]
