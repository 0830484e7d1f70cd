-- ===== src/Daemon/PollLoop/Conditional.antt =====
-- How long a source is polled with a conditional request while it answers that nothing is new.
use uxc.Base.{
  ℕ, suc, ◌≤◌, String, ◌≡◌, refl, subst, inl, inr, Bool, true, false, Option, none, some, List, [],
  arith, Bool-cases,
}
use uxc.Base.Result.{Result, ok, err}
use uxc.Json.{Value, Serde}
use uxc.Poll.{Config, Checkpoint}
use uxc.Poll.Cursor.{build_request_args}
use uxc.Streams.{StoreError}
use uxc.Daemon.PollLoop.SameCheckpoint.{is_stale, refresh_lem}
use uxc.Daemon.PollLoop.{
  Source, FetchResult, Clock, Failure, Outcome, continues, stopped, failed, Fetch, PollDb,
  PollWorld, refresh, sync, fail, wait, close_turn, take_not_modified, take_response, take_fetch,
  poll_turn, note_not_modified, stop,
}

count-refresh :
    {F : Type 0} (now : ℕ) (ck : Checkpoint F)
    → (refresh now ck).consecutive_304_count ≡ ck.consecutive_304_count
count-refresh now ck =
    elim (Bool-cases (is_stale ck.etag ck.etag_set_at_unix ck.consecutive_304_count now)) [
      | inl e ↦ rw (refresh_lem now ck, e) refl
      | inr e ↦ rw (refresh_lem now ck, e) refl
    ]

no_etag :
    (etag : Option String) (set_at : Option ℕ) (count now : ℕ)
    → 3 ≤ count
    → is_stale etag set_at count now ≡ false
    → etag ≡ none
no_etag none set_at count now l e = refl
no_etag (some tag) none count now l e = cc
no_etag (some tag) (some set_at) count now l e = ground arith

module _ (serde : Serde) {S : Type 0} (source : Source) (config : Config)
    (message : Failure → String) where
  open serde use {Float}

  -- Turns of the loop, one after another, that are all answered with the status 304.
  pub data NotModifiedTurns : ℕ → PollWorld serde S → PollWorld serde S → Type 0 where
    here : (w : PollWorld serde S) → NotModifiedTurns 0 w w
    turn :
        {n : ℕ} {w w' w'' : PollWorld serde S} (clock : Clock) (stop_before stop_after : Bool)
        (base_args : List (String × Value Float)) (fetch : Fetch Float) (r : FetchResult Float)
        (interval_secs : ℕ)
        → NotModifiedTurns n w w'
        → fetch
            (build_request_args config w'.checkpoint base_args)
            (refresh clock.before_fetch w'.checkpoint)
          ≡ ok r
        → r.status_code ≡ some 304
        → poll_turn serde source config message clock stop_before stop_after base_args fetch w'
          ≡ continues interval_secs w''
        → NotModifiedTurns (suc n) w w''

  -- The checkpoint of a loop that goes on.
  abbrev GoesOnWith : Checkpoint Float → Outcome (PollWorld serde S) → Type 0
  GoesOnWith ck (continues interval_secs w) = w.checkpoint ≡ ck
  GoesOnWith ck (stopped w) = Unit
  GoesOnWith ck (failed failure w) = Unit

  wait-GoesOnWith :
      (stop_after : Bool) (now interval_secs : ℕ) (w : PollWorld serde S)
      → GoesOnWith w.checkpoint (wait serde source config message stop_after now interval_secs w)
  unfolding wait stop
  wait-GoesOnWith true now interval_secs w = tt
  wait-GoesOnWith false now interval_secs w = refl

  close_turn-GoesOnWith :
      (clock : Clock) (stop_after : Bool) (interval_secs : ℕ) (items : List (Value Float))
      (w : PollWorld serde S) (r : Result StoreError (PollDb serde S))
      → GoesOnWith w.checkpoint
          (close_turn serde source config message clock stop_after interval_secs items w r)
  unfolding close_turn fail sync
  close_turn-GoesOnWith clock stop_after interval_secs items w (err e) = tt
  close_turn-GoesOnWith clock stop_after interval_secs items w (ok db) =
      wait-GoesOnWith stop_after _ interval_secs _

  poll_turn-GoesOnWith :
      (clock : Clock) (stop_before stop_after : Bool) (base_args : List (String × Value Float))
      (fetch : Fetch Float) (r : FetchResult Float) (w : PollWorld serde S)
      → fetch
          (build_request_args config w.checkpoint base_args)
          (refresh clock.before_fetch w.checkpoint)
        ≡ ok r
      → r.status_code ≡ some 304
      → GoesOnWith
          (note_not_modified (refresh clock.before_fetch w.checkpoint))
          (poll_turn serde source config message clock stop_before stop_after base_args fetch w)
  unfolding poll_turn take_fetch take_response take_not_modified stop
  poll_turn-GoesOnWith clock true stop_after base_args fetch r w e f = tt
  poll_turn-GoesOnWith clock false stop_after base_args fetch r w e f =
      rw (e, f) (close_turn-GoesOnWith clock stop_after _ [] _ _)

  counted :
      {n : ℕ} {w w' : PollWorld serde S}
      → NotModifiedTurns n w w'
      → n ≤ 3
      → n ≤ w'.checkpoint.consecutive_304_count
  unfolding note_not_modified
  counted (here w) l = omega arith
  counted (turn {w' = w'} clock stop_before stop_after base_args fetch r interval_secs ts e f g) l =
      let c =
        subst (GoesOnWith (note_not_modified (refresh clock.before_fetch w'.checkpoint))) g
          (poll_turn-GoesOnWith clock stop_before stop_after base_args fetch r w' e f) in
      let k = counted ts (omega arith) in
      rw c (omega (arith, count-refresh clock.before_fetch w'.checkpoint))

  -- After three turns one after another that were answered with the status 304, whatever the checkpoint
  -- was before, the next request carries no ETag, at whatever time it is made.
  pub not_modified-unconditional :
      {w w' : PollWorld serde S} (now : ℕ)
      → NotModifiedTurns 3 w w'
      → (refresh now w'.checkpoint).etag ≡ none
  unfolding refresh
  not_modified-unconditional {w' = w'} now ts =
      let ck = w'.checkpoint in
      let k = counted ts (omega arith) in
      elim (Bool-cases (is_stale ck.etag ck.etag_set_at_unix ck.consecutive_304_count now)) [
        | inl e ↦ rw (refresh_lem now ck, e) refl
        | inr e ↦
            rw (refresh_lem now ck, e)
              (no_etag ck.etag ck.etag_set_at_unix ck.consecutive_304_count now k e)
      ]
