-- ===== src/Queries/Failures.antt =====
-- What goes wrong: a storage that takes no write, and a response that is not good.
use nanas.Prelude.{
  ℕ, ◌≡◌, refl, Bool, false, List, Option, none, some, inl, inr, Bool-cases, if◌then◌else◌, or_else,
}
use nanas.Prelude.Text.{Text, codes, is_empty, delete}
use nanas.Prelude.Json.{Json}
use nanas.Http.{Response, is_ok}
use nanas.Web.Problem.{ProblemBody, ProblemError, problem_error, is_problem}
use nanas.Web.Session.{SessionState}
use nanas.Web.Client.{on_response, network_error}
use nanas.Web.LocalCache
use nanas.Web.LocalCache.{
  CachedItem, Parsed, World, storage_key, get_cached, add_cached, write_back,
}
use nanas.Web.LocalCache.Laws.Updates.{added}
use nanas.Queries.{Fetched, threw_problem, Query, run_query, Store, run_effects}
use nanas.Queries.Mutations.{FunctionRecord, created}

module _ (parse : Text → Parsed) (stringify : List CachedItem → Text) (accepts : Text → Text → Bool)
    (now : ℕ) where
  write_back-failed :
      (k : Text) (list : List CachedItem) (w : World)
      → ((text : Text) → accepts k text ≡ false)
      → (w' : World) × (write_back parse stringify accepts k list w ≡ LocalCache.failed w')
  unfolding write_back
  write_back-failed k list w refuses = elim (Bool-cases w.defined) [
    | inl d ↦ (record w { snapshots = delete k w.snapshots }, rw (d, refuses (stringify list)) refl)
    | inr d ↦ (record w { snapshots = delete k w.snapshots }, rw d refl)
  ]

  -- Where the storage takes no write, the creation of a function, which has succeeded, throws before
  -- the list is told: nothing becomes stale.
  pub created-refused :
      (pid : Text) (fn : FunctionRecord) (s : Store)
      → ((text : Text) → accepts (storage_key (codes "functions") pid) text ≡ false)
      → (let (done, s') = run_effects parse stringify accepts now (created pid fn) s in
          (done ≡ false) × (s'.invalidated ≡ s.invalidated))
  unfolding run_effects created add_cached
  created-refused pid fn s refuses =
      let k = storage_key (codes "functions") pid in
      let item : CachedItem = record { id = fn.fn_id; name = some fn.name; meta = none; ts = 0 } in
      let (w', kept) =
        write_back-failed k (added parse stringify accepts now item (get_cached parse k s.world).1)
          (get_cached parse k s.world).0 refuses in
      let gone : add_cached parse stringify accepts k now item s.world ≡ LocalCache.failed w' =
        kept in
      (rw (gone, run_effects) refl, rw (gone, run_effects) refl)

module _ (parse : Text → Option Json) (as_body : Json → ProblemBody)
    (read : Response → Fetched) where
  -- A query whose response is not good gives a problem with the status of the response, whatever
  -- the query makes of errors: the middleware throws before the query sees one.
  pub run_query-threw_problem :
      (language : Text) (s : SessionState) (q : Query) (response : Response)
      → is_ok response ≡ false
      → (e : ProblemError) × (run_query parse as_body read language s q response ≡ threw_problem e)
        × (e.status ≡ response.status)
  unfolding run_query on_response problem_error
  run_query-threw_problem language s q response bad =
      let body =
        if is_empty response.text then Json.null else or_else (parse response.text) Json.null in
      (
        problem_error language response.status
            (if is_problem body then as_body body else network_error response),
        rw (bad, run_query, on_response) refl,
        refl,
      )
