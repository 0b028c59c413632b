-- ===== src/Pq/Works.antt =====
-- A `pqxx::work` as PostgreSQL documents it, and what the drivers' transactions make of it: all or
-- nothing.
use taobench.Prelude.{
  List, Option, some, none, Bool, true, false, ◌≡◌, refl, ◌∙◌, ◌⊎◌, inl, inr, Bool-cases, arith,
}
use taobench.Db.{TimestampValue, Status, k_ok, k_error, Outcome, returns}
pub use taobench.Database.{HaveKeys}
use taobench.Sql.{Statement, Bindings}
use taobench.Pq.Connection.{Connection}
use taobench.Pq.Transactions.{finish, with_work}

-- A work as PostgreSQL and libpqxx document it: what is committed stays as it is while the work runs
-- and if it is destroyed; a commit leaves the work's content, and one that throws leaves that or what
-- was committed before (`in_doubt_error`: the connection was lost before the answer came).
pub record IsTransactional (conn : Connection) : Type 1 where
  pub Content : Type 0
  pub committed : conn.State → Content
  -- what the statements of the work have made of the content
  pub pending : conn.State → Content
  pub in_work : conn.State → Bool
  pub starts :
      (s : conn.State)
      → in_work s ≡ false
      → (committed (conn.start_work s).1 ≡ committed s)
        × (in_work (conn.start_work s).1 ≡ (conn.start_work s).0)
  pub keeps :
      (stmt : Statement) (bs : Bindings) (s : conn.State)
      → in_work s ≡ true
      → (committed (conn.exec_prepared stmt bs s).1 ≡ committed s)
        × (in_work (conn.exec_prepared stmt bs s).1 ≡ true)
  pub keeps_texts :
      (stmts : List (Option Statement)) (s : conn.State)
      → in_work s ≡ true
      → (committed (conn.exec stmts s).1 ≡ committed s) × (in_work (conn.exec stmts s).1 ≡ true)
  pub aborts :
      (s : conn.State) → (committed (conn.abort s) ≡ committed s) × (in_work (conn.abort s) ≡ false)
  pub commits :
      (s : conn.State)
      → in_work s ≡ true
      → (in_work (conn.commit s).1 ≡ false)
        × ((conn.commit s).0 ≡ true → committed (conn.commit s).1 ≡ pending s)
        × ((conn.commit s).0 ≡ false
            → (committed (conn.commit s).1 ≡ committed s)
              ⊎ (committed (conn.commit s).1 ≡ pending s))

module _ (conn : Connection) (works : IsTransactional conn) where
  open works use {committed, pending, in_work, keeps, starts, aborts, commits}

  -- The state is inside a work over the content `c`.
  abbrev pub Inside : works.Content → conn.State → Type 0
  Inside c s = (committed s ≡ c) × (in_work s ≡ true)

  -- A step returns, inside the same work.
  abbrev pub Keeps : works.Content → {A : Type 0} → (A → conn.State) → Outcome A → Type 0
  Keeps c {A} state r = (a : A) × (r ≡ returns a) × Inside c (state a)

  -- What the end of a work leaves: the pending content, if it was committed, with `kOK`; after a commit
  -- that threw, with `kError`, one of the two contents; and after an early end the old one, with the
  -- status of that end. The connection is in no work.
  abbrev Ends : works.Content → Option Status → conn.State → Status → conn.State → Type 0
  Ends c stop s status s' =
      (((stop ≡ none)
          × (((status ≡ k_ok) × (committed s' ≡ pending s))
              ⊎ ((status ≡ k_error) × ((committed s' ≡ c) ⊎ (committed s' ≡ pending s)))))
        ⊎ ((stop ≡ some status) × (committed s' ≡ c)))
      × (in_work s' ≡ false)

  old_or_new :
      (c : works.Content) (s : conn.State)
      → Inside c s
      → (committed (conn.commit s).1 ≡ committed s) ⊎ (committed (conn.commit s).1 ≡ pending s)
      → (committed (conn.commit s).1 ≡ c) ⊎ (committed (conn.commit s).1 ≡ pending s)
  old_or_new c s h (inl old) = inl (old ∙ h.0)
  old_or_new c s h (inr new) = inr new

  finish-Ends :
      (c : works.Content) (stop : Option Status) (buffer : List TimestampValue) (s : conn.State)
      → Inside c s
      → Ends c stop s (finish conn stop buffer s).0 (finish conn stop buffer s).2
  unfolding finish
  finish-Ends c (some status) buffer s h = (inr (refl, (aborts s).0 ∙ h.0), (aborts s).1)
  finish-Ends c none buffer s h = elim (Bool-cases (conn.commit s).0) [
    | inl done ↦ rw done (inl (refl, inl (refl, (commits s h.1).1 done)), (commits s h.1).0)
    | inr failed ↦
        rw failed
          (inl (refl, inr (refl, old_or_new c s h ((commits s h.1).2 failed))), (commits s h.1).0)
  ]

  finish-buffer :
      (stop : Option Status) (buffer : List TimestampValue) (s : conn.State)
      → (finish conn stop buffer s).1 ≡ buffer
  unfolding finish
  finish-buffer (some status) buffer s = refl
  finish-buffer none buffer s = ground arith

  abbrev pub Body : Type 0
  Body = conn.State → Outcome (Option Status × List TimestampValue × conn.State)

  -- How a transaction with this body ends. The work could not be started. Or its body ran to its end:
  -- then its whole effect is committed, with `kOK`, or the commit threw, with `kError`, and all or
  -- nothing of the effect is there. Or the body ended early, and nothing of it is there.
  abbrev pub Ended : Body → conn.State → Status → List TimestampValue → conn.State → Type 0
  Ended body s status buffer' s' =
      (((conn.start_work s).0 ≡ false) × (status ≡ k_error) × (committed s' ≡ committed s))
      ⊎ (((conn.start_work s).0 ≡ true)
          × (stop : Option Status) × (s₁ : conn.State) × (body (conn.start_work s).1
              ≡ returns (stop, buffer', s₁))
          × (((stop ≡ none)
                × (((status ≡ k_ok) × (committed s' ≡ pending s₁))
                    ⊎ ((status ≡ k_error)
                        × ((committed s' ≡ committed s) ⊎ (committed s' ≡ pending s₁)))))
              ⊎ ((stop ≡ some status) × (committed s' ≡ committed s))))

  -- A transaction with this body returns, ends in one of these ways, and leaves no work open.
  abbrev pub EndsAtomically :
      Body → conn.State → Outcome (Status × List TimestampValue × conn.State) → Type 0
  EndsAtomically body s result =
      (status : Status) × (buffer' : List TimestampValue) × (s' : conn.State) × (result
        ≡ returns (status, buffer', s'))
      × Ended body s status buffer' s'
      × (in_work s' ≡ false)

  ends :
      (body : Body) (buffer : List TimestampValue) (s : conn.State) (stop : Option Status)
      (buffer' : List TimestampValue) (s₁ : conn.State)
      → (conn.start_work s).0 ≡ true
      → body (conn.start_work s).1 ≡ returns (stop, buffer', s₁)
      → Ends (committed s) stop s₁ (finish conn stop buffer' s₁).0 (finish conn stop buffer' s₁).2
      → EndsAtomically body s (with_work conn body buffer s)
  unfolding with_work
  ends body buffer s stop buffer' s₁ started ran (how, idle') = (
    (finish conn stop buffer' s₁).0,
    (finish conn stop buffer' s₁).1,
    (finish conn stop buffer' s₁).2,
    rw (started, ran) refl,
    inr (started, stop, s₁, rw (finish-buffer stop buffer' s₁) ran, how),
    idle',
  )

  -- A body that stays inside the work makes a transaction that is all or nothing.
  pub with_work-atomic :
      (body : Body) (buffer : List TimestampValue) (s : conn.State)
      → in_work s ≡ false
      → ((s' : conn.State)
          → Inside (committed s) s'
          → Keeps
              (committed s)
              (λ (r : Option Status × List TimestampValue × conn.State). r.2)
              (body s'))
      → EndsAtomically body s (with_work conn body buffer s)
  unfolding with_work
  with_work-atomic body buffer s idle stays = elim (Bool-cases (conn.start_work s).0) [
    | inr failed ↦ (
      k_error,
      buffer,
      (conn.start_work s).1,
      rw failed refl,
      inl (failed, refl, (starts s idle).0),
      (starts s idle).1 ∙ failed,
    )
    | inl started ↦
        (let (q, ran, inside) =
            stays (conn.start_work s).1 ((starts s idle).0, (starts s idle).1 ∙ started) in
          ends body buffer s q.0 q.1 q.2 started ran (finish-Ends (committed s) q.0 q.1 q.2 inside))
  ]
