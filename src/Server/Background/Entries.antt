-- ===== src/Server/Background/Entries.antt =====
-- The ids and the versions of background tasks.
use blueboat.Prelude.{
  ℕ, Bytes, codes, Bool, true, false, List, [], ◌∷◌, ◌++◌, some, eqb, eq_of_eqb, Bool-cases, inl,
  inr, ◌==◌, All, split_at, ◌≡◌, refl, sym, ◌∙◌, ap, subst,
}
use blueboat.Prelude.Result.{Result, ok, err, >>=-ok, if-ok}
use blueboat.Prelude.Split.{Lacks, split_at-Lacks, split_at-append}
use blueboat.Ipc.{BlueboatIpcRes}
use blueboat.Server.Metadata.{
  Metadata, Workers, BlueboatIpcReq, generic_invoke, Sources, Tenancy, MdCache, load_md_with_cache,
}
use blueboat.Server.Background.{
  BackgroundEntry, completed, invoked, selected, background_request_id, run_background_entry,
}

split_at-cons :
    (sep : ℕ) (xs : Bytes) → (s : Bytes) × (ss : List Bytes) × (split_at sep xs ≡ s ∷ ss)
unfolding split_at
split_at-cons sep [] = ([], [], refl)
split_at-cons sep (x ∷ xs) = elim (Bool-cases (x == sep)) [
  | inl e ↦ ([], split_at sep xs, rw e refl)
  | inr e ↦ let (s, ss, h) = split_at-cons sep xs in (x ∷ s, ss, rw (e, h) refl)
]

-- The part of an id that its background tasks keep.
base_of :
    (id : Bytes)
    → (s : Bytes) × Lacks b'+' s
      × ((u : Bytes) → background_request_id id u ≡ s ++ (codes "+bg-" ++ u))
unfolding background_request_id
base_of id =
    let (s, ss, h) = split_at-cons b'+' id in
    let lacks : All (Lacks b'+') (s ∷ ss) = subst (All (Lacks b'+')) h (split_at-Lacks b'+' id) in
    (s, lacks.0, λ u. rw h refl)

base_again :
    (s u v : Bytes)
    → Lacks b'+' s
    → background_request_id (s ++ (codes "+bg-" ++ u)) v ≡ s ++ (codes "+bg-" ++ v)
unfolding background_request_id
base_again s u v l = rw (split_at-append b'+' s (codes "bg-" ++ u) l) refl

-- The id of a task that a background task starts is one that the first request could have given: the
-- ids do not grow.
background_request_id_base :
    (id u v : Bytes)
    → background_request_id (background_request_id id u) v ≡ background_request_id id v
background_request_id_base id u v =
    let (s, lacks, base) = base_of id in
    ap (λ x. background_request_id x v) (base u) ∙ base_again s u v lacks ∙ sym (base v)

module _ {Req : Type 0} (w : Workers Req) where
  completed_inv :
      (late : Bool) (r : Result BlueboatIpcRes)
      → selected w late r ≡ completed
      → (res : BlueboatIpcRes) × (r ≡ ok res)
  completed_inv true r h = cc
  completed_inv false (ok res) h = (res, refl)
  completed_inv false (err e) h = cc

  -- A worker for the path and the version has given an answer.
  abbrev pub IsAnswered : BlueboatIpcReq Req → Metadata → Bytes → Type 0
  IsAnswered req md version =
      (worker : w.Worker) × (res : BlueboatIpcRes) × (w.get_worker
          (record { path = md.path; version = version }) md
        ≡ ok worker)
      × (w.invoke worker req ≡ ok res)

  -- An invocation with a version to hold succeeds only by a worker of that version.
  pub generic_invoke_version :
      (req : BlueboatIpcReq Req) (md : Metadata) (version : Bytes) (res : BlueboatIpcRes)
      → generic_invoke w req md (some version) ≡ ok res
      → IsAnswered req md version
  unfolding generic_invoke
  generic_invoke_version req md version res h =
      let (same, r) = if-ok (eqb md.version version) _ _ h in
      let (worker, got, answered) =
        >>=-ok {A = w.Worker} (w.get_worker (record { path = md.path; version = md.version }) md)
          (λ worker. w.invoke worker req) r in
      (
        worker,
        res,
        subst (λ v. w.get_worker (record { path = md.path; version = v }) md ≡ ok worker)
            (eq_of_eqb md.version version same) got,
        answered,
      )

  invoked_version :
      (late : Bool) (req : BlueboatIpcReq Req) (e : BackgroundEntry) (r : Result Metadata)
      → e.same_version ≡ true
      → invoked w late req e r ≡ completed
      → (md : Metadata) × (r ≡ ok md) × IsAnswered req md (e.app.version)
  invoked_version late req e (err x) same h = cc
  invoked_version late req e (ok md) same h =
      let (res, r) = completed_inv late _ h in
      (md, refl, generic_invoke_version req md (e.app.version) res (rw same at r))

  -- A task that is bound to its version and completes was answered by a worker for exactly that version
  -- of the path that the metadata was loaded for.
  pub background_version :
      (s : Sources) (t : Tenancy) (as_background : Bytes → Req) (late : Bool) (uuid : Bytes)
      (cache : MdCache) (e : BackgroundEntry)
      → e.same_version ≡ true
      → (run_background_entry w s t as_background late uuid cache e).0 ≡ completed
      → (md : Metadata) × ((load_md_with_cache s t cache (e.app.path)).0 ≡ ok md)
        × IsAnswered
            (record {
              v = as_background (e.wire_bytes);
              id = background_request_id (e.request_id) uuid;
            })
            md
            (e.app.version)
  unfolding run_background_entry
  background_version s t as_background late uuid cache e same h =
      invoked_version late _ e (load_md_with_cache s t cache (e.app.path)).0 same h
