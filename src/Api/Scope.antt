-- ===== src/Api/Scope.antt =====
-- A caller reaches only the jobs that it may read, and cannot tell another's job from no job.
use tenta_cron.Prelude.{
  ℕ, ◌+◌, ◌≡◌, refl, String, Bool, true, false, not, Option, none, some, List, Bool-cases, inl, inr,
  if◌then◌else◌, Option-cases, arith,
}
use tenta_cron.Prelude.Tables.{find_by}
use tenta_cron.Store.Model.{Job, Detail}
use tenta_cron.Store.Sql.{M, ok, Env, World, pure, query, statement, recover, ◌>>=◌, raise}
use tenta_cron.Store.Sql.Holds.{Holds-pure, Holds-if, Holds-recover}
use tenta_cron.Store.Create.{get_job}
use tenta_cron.Store.Invariant.{IsValid}
use tenta_cron.Store.Invariant.Keeps.{Keeps}
use tenta_cron.Store.Invariant.Claim.{get_job-Keeps}
use tenta_cron.Store.Invariant.Methods.{mark_cancelled-Keeps}
use tenta_cron.Access.{ApiKey, Identity, authenticate, may_read}
use tenta_cron.Api.{
  Answer, unauthorized, no_such_request, internal_error, Response, just, job_for_caller,
  cancel_loaded, handle_cancel,
}

-- No job stands behind the id, or one that the caller may not read.
abbrev pub is_hidden : Identity → Option Job → Bool
is_hidden caller none = true
is_hidden caller (some j) = not (may_read caller j)

unreadable :
    (caller : Identity) (j : Job) → not (may_read caller j) ≡ true → may_read caller j ≡ false
unreadable caller j h = ground arith

-- Whatever a handler does with the job that it is given, it does nothing with one that the caller
-- may not read: the tables stay, and the answer is the same whether there is such a job or none, so
-- that ids cannot be probed.
pub job_for_caller-hides :
    (caller : Identity) (id : String) (next : Job → M Response) (e : Env) (w : World)
    → is_hidden caller (find_by (λ j. j.id) id w.db.jobs) ≡ true
    → job_for_caller caller id next e w ≡ (
      ok (just (if e.fails w.step then internal_error else no_such_request)),
      record w { step = w.step + 1 },
    )
unfolding job_for_caller get_job query statement recover raise pure ◌>>=◌
job_for_caller-hides caller id next e w h = elim (Bool-cases (e.fails w.step)) [
  | inl fault ↦ rw fault refl
  | inr fine ↦ elim (Option-cases (find_by (λ j. j.id) id w.db.jobs)) [
    | inl none_found ↦ rw (fine, none_found) refl
    | inr found ↦ rw (fine, found.1, unreadable caller found.0 (rw (found.1) at h)) refl
  ]
]

cancel_loaded-Keeps :
    (offers_cancel : String → Bool) (detail : Detail) (job : Job)
    → Keeps (cancel_loaded offers_cancel detail job)
unfolding cancel_loaded
cancel_loaded-Keeps offers_cancel detail job =
    Holds-recover _ _ _ (mark_cancelled-Keeps job.id detail) (λ x. Holds-pure _)
      (λ done. Holds-recover _ _ _ (get_job-Keeps job.id) (λ x. Holds-pure _) (λ j. Holds-pure _))

job_for_caller-Keeps :
    (caller : Identity) (id : String) (next : Job → M Response)
    → ((job : Job) → Keeps (next job))
    → Keeps (job_for_caller caller id next)
unfolding job_for_caller
job_for_caller-Keeps caller id next k =
    Holds-recover _ _ _ (get_job-Keeps id) (λ x. Holds-pure _)
      (λ job. Holds-if (may_read caller job) _ _ (k job) (Holds-pure _))

-- A cancellation, whoever asks for it and whatever fails, leaves valid tables valid.
pub handle_cancel-IsValid :
    (offers_cancel : String → Bool) (detail : String → Detail) (keys : List ApiKey)
    (presented id : String) (e : Env) (w : World)
    → IsValid w.db
    → IsValid (handle_cancel offers_cancel detail keys presented id e w).1.db
unfolding handle_cancel pure
handle_cancel-IsValid offers_cancel detail keys presented id e w v =
    elim (Option-cases (authenticate presented keys)) [
      | inl nobody ↦ rw nobody v
      | inr known ↦ rw (known.1) (
          (job_for_caller-Keeps known.0 id (cancel_loaded offers_cancel (detail known.0.name))
              (cancel_loaded-Keeps offers_cancel (detail known.0.name))).keeps
            e w v)
    ]

-- For a key that nobody holds, everything is.
abbrev pub is_closed_to : Option Identity → Option Job → Bool
is_closed_to none j = true
is_closed_to (some caller) j = is_hidden caller j

-- Nobody cancels a job that its key does not let it read: where the key is unknown, or there is no
-- job behind the id, or only one that the holder of the key may not read, the tables stay, no waiter
-- is woken and no target is told.
pub handle_cancel-scoped :
    (offers_cancel : String → Bool) (detail : String → Detail) (keys : List ApiKey)
    (presented id : String) (e : Env) (w : World)
    → is_closed_to (authenticate presented keys) (find_by (λ j. j.id) id w.db.jobs) ≡ true
    → ((a : Answer) × (n : ℕ) × (handle_cancel offers_cancel detail keys presented id e w
          ≡ (ok (just a), record w { step = n })))
unfolding handle_cancel pure
handle_cancel-scoped offers_cancel detail keys presented id e w h =
    elim (Option-cases (authenticate presented keys)) [
      | inl nobody ↦ (unauthorized, w.step, rw nobody refl)
      | inr known ↦ (
        if e.fails w.step then internal_error else no_such_request,
        w.step + 1,
        rw (known.1) (
            job_for_caller-hides known.0 id (cancel_loaded offers_cancel (detail known.0.name)) e w
              (rw (known.1) at h)),
      )
    ]
