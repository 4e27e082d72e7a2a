-- ===== src/Store/Invariant/Claim.antt =====
-- Handing out work keeps the invariant of the tables (internal/store/jobs.go, `ClaimNext`).
use tenta_cron.Prelude.{
  ℕ, zero, suc, String, ◌≡◌, refl, Bool, true, false, Option, none, some, List, [], ◌∷◌, arith,
}
use tenta_cron.Prelude.Tables.{find_by}
use tenta_cron.Store.Model.{
  State, received, resolving, awaiting_target, failed, ts, Job, Database, is_terminal,
}
use tenta_cron.Store.Sql.{M}
use tenta_cron.Store.Sql.Hoare.{Post-tables}
use tenta_cron.Store.Create.{get_job, or_not_found}
use tenta_cron.Store.Create.Outcome.{Same}
use tenta_cron.Store.Transition.{transition, from_guard}
use tenta_cron.Store.Transition.Outcome.{after}
use tenta_cron.Store.Claim.{
  ClaimPolicy, claim_row, claim_received, claim_poll_tick, lease_row, claim_as, claim_one,
  claim_from, claim_round, claim_next, exhausted_row, exhausted, Batch, claimed, skipped,
  after_batch, claim_candidates, in_flight_for, in_flight_by_client, claim_rounds,
}
use tenta_cron.Store.Claim.Outcome.{
  Claimed, Ticked, claimed_detail, claim_received-Post, claim_poll_tick-Post,
}
use tenta_cron.Store.Invariant.{RowIsValid, IsValid}
use tenta_cron.Store.Invariant.Keeps.{Keeps, keeps_rules}
use tenta_cron.Store.Sql.Holds.{Holds-pure, Holds-query, Holds-if, Holds-bind, Holds-time_now}
use tenta_cron.Store.Invariant.Transit.{
  IsBuild, IsSound, Committed-IsValid, transition_guarded-Keeps,
}
use tenta_cron.Store.Invariant.Touch.{touched-IsValid}

claim-IsSound : IsSound (from_guard (some received)) resolving claim_row
claim-IsSound = record {
  shape = record {
    same_id = λ j. refl;
    same_state = λ j. refl;
    same_client = λ j. refl;
    same_key = λ j. refl;
    same_url = λ j. refl;
  };
  edge = λ s t g. ground arith;
  row = λ now j t g v. ground arith;
}

pub claim_received-Keeps :
    (id client : String) (ceiling now : ℕ) → Keeps (claim_received id client ceiling now)
claim_received-Keeps id client ceiling now = record {
  keeps = λ e w v.
      Post-tables (Claimed id client ceiling now (find_by (λ j. j.id) id w.db.jobs) w.db)
        (Same w.db) IsValid (claim_received id client ceiling now e w)
        (claim_received-Post id client ceiling now e w)
        (λ b d' c. go (find_by (λ j. j.id) id w.db.jobs) w.db refl v b d' c)
        (λ x d' same. rw same v);
}
  where
    go :
        (o : Option Job) (d : Database)
        → find_by (λ j. j.id) id d.jobs ≡ o
        → IsValid d
        → (b : Bool) (d' : Database) → Claimed id client ceiling now o d b d'
        → IsValid d'
    go none d f v false d' c = rw c v
    go none d f v true d' c = elim c [ ]
    go (some j) d f v false d' c = rw c v
    go (some j) d f v true d' c =
        let ok : (is_terminal j.state ≡ false) × (from_guard (some received) j.state ≡ none) =
          (ground arith, ground arith) in
        let moved : IsValid (after id resolving claimed_detail now claim_row j d) =
          Committed-IsValid id (from_guard (some received)) resolving claimed_detail claim_row
            claim-IsSound now (some j) d _ f (ok.0, ok.1, refl) v in
        rw c.1 (record { at = moved.at; unique = moved.unique; once = moved.once })

pub lease-IsBuild : (lease now : ℕ) → IsBuild (lease_row lease now)
lease-IsBuild lease now = record {
  same_id = λ j. refl;
  same_state = λ j. refl;
  same_client = λ j. refl;
  same_key = λ j. refl;
  same_url = λ j. refl;
}

pub claim_poll_tick-Keeps :
    (id : String) (prev : Option ℕ) (lease now : ℕ) → Keeps (claim_poll_tick id prev lease now)
claim_poll_tick-Keeps id prev lease now = record {
  keeps = λ e w v.
      Post-tables (Ticked id prev lease now (find_by (λ j. j.id) id w.db.jobs) w.db) (Same w.db)
        IsValid (claim_poll_tick id prev lease now e w) (claim_poll_tick-Post id prev lease now e w)
        (λ b d' c. go (find_by (λ j. j.id) id w.db.jobs) w.db refl v b d' c)
        (λ x d' same. rw same v);
}
  where
    leased :
        (x : Job) → x.state ≡ awaiting_target → RowIsValid x → RowIsValid (lease_row lease now x)
    leased x s r = ground arith

    same_row :
        (d : Database) (x j : Job)
        → find_by (λ j. j.id) id d.jobs ≡ some x
        → find_by (λ j. j.id) id d.jobs ≡ some j
        → j.state ≡ awaiting_target
        → x.state ≡ awaiting_target
    same_row d x j g f s = cc

    go :
        (o : Option Job) (d : Database)
        → find_by (λ j. j.id) id d.jobs ≡ o
        → IsValid d
        → (b : Bool) (d' : Database) → Ticked id prev lease now o d b d'
        → IsValid d'
    go none d f v false d' c = rw c v
    go none d f v true d' c = elim c [ ]
    go (some j) d f v false d' c = rw c v
    go (some j) d f v true d' c = rw c.2 (
        touched-IsValid id (lease_row lease now) (lease-IsBuild lease now) d
          (λ x g r. leased x (same_row d x j g f c.0) r) v)

exhausted-IsSound :
    (attempts now : ℕ) → IsSound (from_guard (some received)) failed (exhausted_row attempts now)
exhausted-IsSound attempts now = record {
  shape = record {
    same_id = λ j. refl;
    same_state = λ j. refl;
    same_client = λ j. refl;
    same_key = λ j. refl;
    same_url = λ j. refl;
  };
  edge = λ s t g. ground arith;
  row = λ at j t g v. ground arith;
}

exhausted-Keeps :
    (id : String) (attempts now : ℕ)
    → Keeps (transition id (some received) failed exhausted (exhausted_row attempts now))
unfolding transition
exhausted-Keeps id attempts now =
    transition_guarded-Keeps id _ failed exhausted _ (exhausted-IsSound attempts now)

claim_as-Keeps :
    (s : State) (c : Job) (now : ℕ) (policy : ClaimPolicy) → Keeps (claim_as s c now policy)
unfolding claim_as
claim_as-Keeps received c now policy = search (keeps_rules, exhausted-Keeps, claim_received-Keeps)
claim_as-Keeps awaiting_target c now policy = claim_poll_tick-Keeps _ _ _ _
claim_as-Keeps _ c now policy = Holds-pure false

pub claim_one-Keeps : (c : Job) (now : ℕ) (policy : ClaimPolicy) → Keeps (claim_one c now policy)
unfolding claim_one
claim_one-Keeps c now policy = claim_as-Keeps c.state c now policy

or_not_found-Keeps : (o : Option Job) → Keeps (or_not_found o)
or_not_found-Keeps none = search keeps_rules
or_not_found-Keeps (some j) = search keeps_rules

pub get_job-Keeps : (id : String) → Keeps (get_job id)
unfolding get_job
get_job-Keeps id = search (keeps_rules, or_not_found-Keeps)

claim_from-Keeps :
    (in_flight : String → ℕ) (now : ℕ) (policy : ClaimPolicy) (cs : List Job) (capped : List String)
    → Keeps (claim_from in_flight now policy cs capped)
unfolding claim_from
claim_from-Keeps in_flight now policy [] capped = Holds-pure (skipped capped)
claim_from-Keeps in_flight now policy (c ∷ cs) capped =
    Holds-if _ _ _ (claim_from-Keeps in_flight now policy cs (c.client ∷ capped)) (
      Holds-bind _ _ (claim_one-Keeps c now policy) (λ got.
        Holds-if got _ _ (Holds-bind _ _ (get_job-Keeps c.id) (λ j. Holds-pure (claimed j)))
          (claim_from-Keeps in_flight now policy cs capped)))

claim_round-Keeps :
    (n : ℕ) (in_flight : String → ℕ) (now : ℕ) (policy : ClaimPolicy) (excluded : List String)
    → Keeps (claim_round n in_flight now policy excluded)
unfolding claim_round
claim_round-Keeps zero in_flight now policy excluded = Holds-pure none
claim_round-Keeps (suc n) in_flight now policy excluded =
    Holds-bind _ _ (candidates-Keeps (ts now) excluded) λ cands.
      Holds-bind _ _ (claim_from-Keeps in_flight now policy cands []) λ batch.
        after_batch-Keeps _ (claim_round n in_flight now policy) excluded batch
          (claim_round-Keeps n in_flight now policy)
  where
    candidates-Keeps : (at : ℕ) (excluded : List String) → Keeps (claim_candidates at excluded)
    candidates-Keeps at excluded = unfold claim_candidates in Holds-query _

    after_batch-Keeps :
        (short : Bool) (next_round : List String → M (Option Job)) (excluded : List String)
        (b : Batch)
        → ((xs : List String) → Keeps (next_round xs))
        → Keeps (after_batch short next_round excluded b)
    after_batch-Keeps short next_round excluded (claimed j) k = Holds-pure (some j)
    after_batch-Keeps true next_round excluded (skipped capped) k = Holds-pure none
    after_batch-Keeps false next_round excluded (skipped capped) k = k _

-- Whatever the policy, and whatever fails, a claim keeps the tables valid.
pub claim_next-Keeps : (policy : ClaimPolicy) → Keeps (claim_next policy)
unfolding claim_next
claim_next-Keeps policy = Holds-time_now _ λ now.
    Holds-bind _ _ (in_flight-Keeps policy.max_concurrent)
      λ in_flight. claim_round-Keeps claim_rounds in_flight now policy []
  where
    in_flight-Keeps : (c : Option (String → ℕ)) → Keeps (in_flight_for c)
    in_flight-Keeps none = Holds-pure _
    in_flight-Keeps (some c) = unfold in_flight_by_client in Holds-query _
