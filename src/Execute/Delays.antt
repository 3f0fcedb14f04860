-- ===== src/Execute/Delays.antt =====
-- sdk/executable.go: how long an execution waits between its attempts.
use hiero_sdk_go.Base.{
  ℕ, zero, suc, ◌*◌, ◌^◌, ◌≡◌, refl, ap, ◌∙◌, inl, inr, Bool, true, false, if◌then◌else◌, not, ◌&&◌,
  Option, none, some, arith, if_elim, Bool-cases, All, bind,
}
use hiero_sdk_go.Base.Int.{ℤ, pos, ◌+ℤ◌, ◌≤ℤ◌, ltb_ℤ}
use hiero_sdk_go.Base.Int64.{double, ◌+₆₄◌, wrap}
use hiero_sdk_go.Base.Text.{Text}
use hiero_sdk_go.Node.{second}
use hiero_sdk_go.LockableSlice.{LockableSlice, get_next}
use hiero_sdk_go.Network.{Network}
use hiero_sdk_go.Execute.{
  Executable, or_default, get_max_backoff, get_min_backoff, advance_request, regenerate_id, Reply,
  query_response, transaction_reply, map_response,
}
use hiero_sdk_go.Execute.Loop.{
  Outcome, AddressBook, after_deferred, Attempt, Client, Run, backoff_of_attempt, execute_attempts,
  update_address_books, execute,
}
use hiero_sdk_go.Execute.Changes.{IsKept, attempt_kept, attempts_kept}

advance_request_max : (e : Executable) → get_max_backoff (advance_request e) ≡ get_max_backoff e
unfolding advance_request get_max_backoff
advance_request_max e =
    if_elim (λ (x : Executable). get_max_backoff x ≡ get_max_backoff e) e.is_transaction refl refl

transaction_reply_max :
    {R : Type 0} (hash : Text → Text) (node : Text) (request : Option Text) (e e' : Executable)
    (next : Option (LockableSlice Text × Option Text)) (reply : Reply R)
    → transaction_reply hash node request e next ≡ some (e', reply)
    → e'.max_backoff ≡ e.max_backoff
transaction_reply_max hash node none e e' next reply h = cc
transaction_reply_max hash node (some bytes) e e' none reply h = cc
transaction_reply_max hash node (some bytes) e e' (some (ids, none)) reply h = cc
transaction_reply_max hash node (some bytes) e e' (some (ids, some id)) reply h =
    let same : e' ≡ record e { transaction_ids = ids } = cc in
    ap (λ (x : Executable). x.max_backoff) same

reply_max :
    {R : Type 0} (hash : Text → Text) (e e' : Executable) (node : Text) (request : Option Text)
    (response : R) (reply : Reply R) (b : Bool)
    → (if b
        then transaction_reply hash node request e (get_next e.transaction_ids)
        else some (e, query_response response))
      ≡ some (e', reply)
    → e'.max_backoff ≡ e.max_backoff
reply_max hash e e' node request response reply true h =
    transaction_reply_max hash node request e e' (get_next e.transaction_ids) reply h
reply_max hash e e' node request response reply false h =
    let same : e' ≡ e = cc in ap (λ (x : Executable). x.max_backoff) same

map_response_max :
    {R : Type 0} (hash : Text → Text) (e e' : Executable) (node : Text) (request : Option Text)
    (response : R) (reply : Reply R)
    → map_response hash e node request response ≡ some (e', reply)
    → e'.max_backoff ≡ e.max_backoff
unfolding map_response
map_response_max hash e e' node request response reply h =
    reply_max hash e e' node request response reply e.is_transaction h

set_ids_max :
    (e e' : Executable) (b : Bool) (o : Option (LockableSlice Text))
    → bind {B = Executable × Bool} o (λ ids. some (record e { transaction_ids = ids }, true))
      ≡ some (e', b)
    → e'.max_backoff ≡ e.max_backoff
set_ids_max e e' b none h = cc
set_ids_max e e' b (some ids) h =
    let same : e' ≡ record e { transaction_ids = ids } = cc in
    ap (λ (x : Executable). x.max_backoff) same

regenerate_id_max :
    (e e' : Executable) (id : Option Text) (b : Bool)
    → regenerate_id e id ≡ some (e', b)
    → e'.max_backoff ≡ e.max_backoff
unfolding regenerate_id
regenerate_id_max e e' none b h =
    let same : e' ≡ e = cc in ap (λ (x : Executable). x.max_backoff) same
regenerate_id_max e e' (some id) b h =
    elim (Bool-cases (not (e.regenerates && not e.transaction_ids.locked))) [
      | inl k ↦ let same : e' ≡ e = cc (rw k at h) in ap (λ (x : Executable). x.max_backoff) same
      | inr k ↦ set_ids_max e e' b _ (rw k at h)
    ]

-- Between the bounds, for delays of at most 2 ^ 61 nanoseconds.
abbrev pub IsBetween : ℤ → ℤ → ℤ → Type 0
IsBetween lo max d = (lo ≤ℤ d) × (d ≤ℤ double max)

backoff-IsBetween :
    (k : ℕ) (lo max d : ℤ)
    → pos 0 ≤ℤ lo
    → max ≤ℤ pos (2 ^ 61)
    → IsBetween lo max d
    → IsBetween lo max (backoff_of_attempt k max d)
unfolding backoff_of_attempt double ◌+₆₄◌ wrap ◌+ℤ◌
backoff-IsBetween zero lo max d h m b = b
backoff-IsBetween (suc k) lo max d h m b = ground arith

doubled : (lo max : ℤ) → pos 0 ≤ℤ lo → lo ≤ℤ max → max ≤ℤ pos (2 ^ 61) → lo ≤ℤ double max
unfolding double ◌+₆₄◌ wrap ◌+ℤ◌
doubled lo max h0 h1 h2 = ground arith

record InBounds (lo max : ℤ) (run : Run) : Type 0 where
  same : get_max_backoff run.executable ≡ max
  current : IsBetween lo max run.current_backoff
  each : All (IsBetween lo max) run.delays

InBounds-IsKept : {R : Type 0} (lo max : ℤ) → IsKept R (InBounds lo max)
unfolding get_max_backoff
InBounds-IsKept lo max = record {
  advance = λ run h. record {
    same = advance_request_max run.executable ∙ h.same;
    current = h.current;
    each = h.each;
  };
  delay = λ run h. record { same = h.same; current = h.current; each = (h.current, h.each) };
  fail = λ run h f. record { same = h.same; current = h.current; each = h.each };
  use_a = λ run h a r. record { same = h.same; current = h.current; each = h.each };
  punished = λ run h a r. record { same = h.same; current = h.current; each = h.each };
  rewarded = λ run h r. record { same = h.same; current = h.current; each = h.each };
  called = λ run h r. record { same = h.same; current = h.current; each = h.each };
  picked = λ run h a mn r e. record { same = h.same; current = h.current; each = h.each };
  regenerate = λ run h id e b k. record {
    same =
        ap (λ o. or_default o (pos (8 * second))) (regenerate_id_max run.executable e id b k)
        ∙ h.same;
    current = h.current;
    each = h.each;
  };
  map_to = λ run h hash node request response e reply k. record {
    same =
        ap (λ o. or_default o (pos (8 * second)))
          (map_response_max hash run.executable e node request response reply k)
        ∙ h.same;
    current = h.current;
    each = h.each;
  };
  defers = λ run h. record { same = h.same; current = h.current; each = h.each };
}

-- The deferred updates do not wait.
after_deferred_delays :
    {R : Type 0} (run : Run) (o : Outcome R) (mn : Option Network)
    → (after_deferred run o mn).0.delays ≡ run.delays
after_deferred_delays run o none = refl
after_deferred_delays run o (some mn) = refl

-- Where the bounds of the backoff are in order, not negative and at most 2 ^ 61 nanoseconds, every
-- delay of an execution is at least the minimum and at most twice the maximum.
pub execute_delays :
    {R : Type 0} (client : Client) (world : ℕ → Attempt R) (books : ℕ → AddressBook)
    (e : Executable) (mn : Network)
    → pos 0 ≤ℤ get_min_backoff e
    → get_min_backoff e ≤ℤ get_max_backoff e
    → get_max_backoff e ≤ℤ pos (2 ^ 61)
    → All
        (λ d. (get_min_backoff e ≤ℤ d) × (d ≤ℤ double (get_max_backoff e)))
        (execute client world books e mn).0.delays
unfolding execute execute_attempts
execute_delays client world books e mn h0 h1 h2 =
    let run : Run = (execute_attempts client world e mn).0 in
    let delays =
      after_deferred_delays run (execute_attempts client world e mn).1
        (update_address_books books run.deferred run.network) in
    rw delays
      (attempts_kept (InBounds lo max) client world
        (λ k run h.
          attempt_kept (InBounds lo max) (InBounds-IsKept lo max) client (world k) k run h (record {
            same = h.same;
            current = rw h.same (backoff-IsBetween k lo max run.current_backoff h0 h2 h.current);
            each = h.each;
          }))
        _ 0 _
        (record { same = refl; current = (omega arith, doubled lo max h0 h1 h2); each = tt })).each
  where
    lo : ℤ
    lo = get_min_backoff e

    max : ℤ
    max = get_max_backoff e

-- A current backoff that is at the maximum is doubled once more, above the maximum.
pub backoff_of_attempt_exceeds :
    (k : ℕ) (max : ℤ)
    → ltb_ℤ (pos 0) max ≡ true
    → max ≤ℤ pos (2 ^ 61)
    → ltb_ℤ max (backoff_of_attempt (suc k) max max) ≡ true
unfolding backoff_of_attempt double ◌+₆₄◌ wrap ◌+ℤ◌
backoff_of_attempt_exceeds k max h0 h1 = ground arith
