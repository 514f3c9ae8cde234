-- ===== src/Interceptor/Transacted.antt =====
-- What a transaction of src/common/interceptors leaves on every path through it: the parts that the
-- interceptors of the database share.
use hanghae_plus_backend.Prelude.{ℕ, suc, ◌+◌, ◌≤◌, ◌≡◌, inl, inr, true, ◌∷◌, arith, if◌then◌else◌}
use hanghae_plus_backend.Async.{
  Async, Outcome, Thrown, async-cases, ◌>>=◌, ◌>>◌, return, catch, throw, finally,
}
use hanghae_plus_backend.Interceptor.DataSource.{DataSource, in_transaction}
use hanghae_plus_backend.Interceptor.DbPessimistic.{translate}
use hanghae_plus_backend.Interceptor.Trace.{
  handle, connect, start_transaction, Trace, traced, traced_source, has_returned, tally, is_connect,
  is_begin, is_end, is_release, is_handle, is_committed, is_commit_last,
}

module _ {W : Type 0} where
  -- Inside of a transaction: it is over exactly if the body returned, by a commit as its last call.
  pub record Inside {A : Type 0} (r : Outcome A) (t t' : Trace W) : Type 0 where
    pub connects : tally is_connect t'.calls ≡ tally is_connect t.calls
    pub begins : tally is_begin t'.calls ≡ tally is_begin t.calls
    pub releases : tally is_release t'.calls ≡ tally is_release t.calls
    pub handles : tally is_handle t'.calls ≤ suc (tally is_handle t.calls)
    pub ends :
        tally is_end t'.calls
        ≡ (if has_returned r then suc (tally is_end t.calls) else tally is_end t.calls)
    pub last : has_returned r ≡ true → is_commit_last t'.calls ≡ true

  -- The same when the body's errors are caught: the transaction is over.
  record Over {A : Type 0} (r : Outcome A) (t t' : Trace W) : Type 0 where
    pub connects : tally is_connect t'.calls ≡ tally is_connect t.calls
    pub begins : tally is_begin t'.calls ≡ tally is_begin t.calls
    pub releases : tally is_release t'.calls ≡ tally is_release t.calls
    pub handles : tally is_handle t'.calls ≤ suc (tally is_handle t.calls)
    pub ends : tally is_end t'.calls ≡ suc (tally is_end t.calls)
    pub last : has_returned r ≡ true → is_commit_last t'.calls ≡ true

  -- One connection, and at most one transaction and one run of the handler: whatever has begun is over and
  -- released, and a result is returned only after a commit.
  pub record Closed {A : Type 0} (r : Outcome A) (t t' : Trace W) : Type 0 where
    pub opened : ℕ
    pub at_most_one : opened ≤ 1
    pub connects : tally is_connect t'.calls ≡ suc (tally is_connect t.calls)
    pub begins : tally is_begin t'.calls ≡ opened + tally is_begin t.calls
    pub ends : tally is_end t'.calls ≡ opened + tally is_end t.calls
    pub releases : tally is_release t'.calls ≡ opened + tally is_release t.calls
    pub handles : tally is_handle t'.calls ≤ opened + tally is_handle t.calls
    pub committed : has_returned r ≡ true → is_committed t'.calls ≡ true

  pub commit-Inside :
      {A : Type 0} (ds : DataSource W) (handler : Async W A) (t : Trace W)
      → (let m = traced handle handler >>= λ a. (traced_source ds).commit_transaction >> return a in
          Inside (m t).0 t (m t).1)
  commit-Inside ds handler t = elim (async-cases handler t.world) [
    | inl (e, w, threw) ↦ record {
      connects = ground arith;
      begins = ground arith;
      releases = ground arith;
      handles = ground arith;
      ends = ground arith;
      last = λ h. ground arith;
    }
    | inr (a, w, returned) ↦ elim (async-cases ds.commit_transaction w) [
      | inl (e, v, threw) ↦ record {
        connects = ground arith;
        begins = ground arith;
        releases = ground arith;
        handles = ground arith;
        ends = ground arith;
        last = λ h. ground arith;
      }
      | inr (_, v, done) ↦ record {
        connects = ground arith;
        begins = ground arith;
        releases = ground arith;
        handles = ground arith;
        ends = ground arith;
        last = λ h. ground arith;
      }
    ]
  ]

  catch-Over :
      {A : Type 0} (ds : DataSource W) (translate : Thrown → Thrown) (body : Async (Trace W) A)
      (t : Trace W)
      → Inside (body t).0 t (body t).1
      → (let m =
            catch body
              (λ error. (traced_source ds).rollback_transaction >> throw (translate error)) in
          Over (m t).0 t (m t).1)
  catch-Over ds translate body t i = elim (async-cases body t) [
    | inr (a, t₁, done) ↦ record {
      connects = ground (arith, i.connects);
      begins = ground (arith, i.begins);
      releases = ground (arith, i.releases);
      handles = ground (arith, i.handles);
      ends = ground (arith, i.ends);
      last = λ h. ground (arith, i.last);
    }
    | inl (e, t₁, threw) ↦ elim (async-cases ds.rollback_transaction t₁.world) [
      | inl (f, w, unrolled) ↦ record {
        connects = ground (arith, i.connects);
        begins = ground (arith, i.begins);
        releases = ground (arith, i.releases);
        handles = ground (arith, i.handles);
        ends = ground (arith, i.ends);
        last = λ h. ground arith;
      }
      | inr (_, w, rolled) ↦ record {
        connects = ground (arith, i.connects);
        begins = ground (arith, i.begins);
        releases = ground (arith, i.releases);
        handles = ground (arith, i.handles);
        ends = ground (arith, i.ends);
        last = λ h. ground arith;
      }
    ]
  ]

  finally-Closed :
      {A : Type 0} (ds : DataSource W) (m : Async (Trace W) A) (t : Trace W)
      → Over (m t).0 t (m t).1
      → (let f = finally m (traced_source ds).release in
          (tally is_connect (f t).1.calls ≡ tally is_connect t.calls)
          × (tally is_begin (f t).1.calls ≡ tally is_begin t.calls)
          × (tally is_end (f t).1.calls ≡ suc (tally is_end t.calls))
          × (tally is_release (f t).1.calls ≡ suc (tally is_release t.calls))
          × (tally is_handle (f t).1.calls ≤ suc (tally is_handle t.calls))
          × (has_returned (f t).0 ≡ true → is_committed (f t).1.calls ≡ true))
  finally-Closed ds m t o = elim (async-cases m t) [
    | inl (e, t₁, threw) ↦ elim (async-cases ds.release t₁.world) [
      | inl (f, w, kept) ↦ (
        ground (arith, o.connects),
        ground (arith, o.begins),
        ground (arith, o.ends),
        ground (arith, o.releases),
        ground (arith, o.handles),
        λ h. ground arith,
      )
      | inr (_, w, released) ↦ (
        ground (arith, o.connects),
        ground (arith, o.begins),
        ground (arith, o.ends),
        ground (arith, o.releases),
        ground (arith, o.handles),
        λ h. ground arith,
      )
    ]
    | inr (a, t₁, done) ↦ elim (async-cases ds.release t₁.world) [
      | inl (f, w, kept) ↦ (
        ground (arith, o.connects),
        ground (arith, o.begins),
        ground (arith, o.ends),
        ground (arith, o.releases),
        ground (arith, o.handles),
        λ h. ground arith,
      )
      | inr (_, w, released) ↦ (
        ground (arith, o.connects),
        ground (arith, o.begins),
        ground (arith, o.ends),
        ground (arith, o.releases),
        ground (arith, o.handles),
        λ h. ground (arith, o.last),
      )
    ]
  ]

  pub in_transaction-Closed :
      {A : Type 0} (ds : DataSource W) (translate : Thrown → Thrown) (body : Async (Trace W) A)
      → ((t : Trace W) → Inside (body t).0 t (body t).1)
      → (t : Trace W)
      → Closed
          (in_transaction (traced_source ds) translate body t).0
          t
          (in_transaction (traced_source ds) translate body t).1
  unfolding in_transaction
  in_transaction-Closed ds translate body inside t = elim (async-cases ds.connect t.world) [
    | inl (e, w, threw) ↦ record {
      opened = 0;
      at_most_one = omega arith;
      connects = ground arith;
      begins = ground arith;
      releases = ground arith;
      ends = ground arith;
      handles = ground arith;
      committed = λ h. ground arith;
    }
    | inr (_, w₁, connected) ↦ elim (async-cases ds.start_transaction w₁) [
      | inl (e, w, threw) ↦ record {
        opened = 0;
        at_most_one = omega arith;
        connects = ground arith;
        begins = ground arith;
        releases = ground arith;
        ends = ground arith;
        handles = ground arith;
        committed = λ h. ground arith;
      }
      | inr (_, w₂, started) ↦
          (let t₂ : Trace W = record {
            calls = (start_transaction, true) ∷ (connect, true) ∷ t.calls;
            world = w₂;
          } in
            let (connects, begins, ends, releases, handles, last) =
              finally-Closed ds
                (catch body
                  (λ error. (traced_source ds).rollback_transaction >> throw (translate error)))
                t₂ (catch-Over ds translate body t₂ (inside t₂)) in
            record {
              opened = 1;
              at_most_one = omega arith;
              connects = ground (arith, connects);
              begins = ground (arith, begins);
              ends = ground (arith, ends);
              releases = ground (arith, releases);
              handles = ground (arith, handles);
              committed = λ h. ground (arith, last);
            })
    ]
  ]
