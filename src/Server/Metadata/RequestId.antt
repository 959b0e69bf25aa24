-- ===== src/Server/Metadata/RequestId.antt =====
-- The request id: the id that a worker is asked with is the one that the answer carries.
use blueboat.Prelude.{Bytes, codes, [], ◌∷◌, some, ◌≡◌, ◌⊎◌}
use blueboat.Prelude.Table.{lookup, insert}
use blueboat.Prelude.Result.{Result, ok, err}
use blueboat.Server.Headers.{Headers, HttpResponse, hdr_req_request_id}
use blueboat.Ipc.{BlueboatIpcRes}
use blueboat.Server.Metadata.{Metadata, Workers, BlueboatIpcReq, Incoming, hdr_res_request_id}

module _ {Req : Type 0} (w : Workers Req) where
  -- A worker for the path and the version of the metadata has answered the request, and the status, if
  -- it is one, and the body are those of its answer.
  abbrev pub IsWorkers : Incoming w → BlueboatIpcReq Req → Metadata → HttpResponse → Type 0
  IsWorkers i req md res =
      (worker : w.Worker) × (r : BlueboatIpcRes) × (w.get_worker
          (record { path = md.path; version = md.version }) md
        ≡ ok worker)
      × (w.invoke worker req ≡ ok r)
      × (i.status_code r.response.status ≡ ok res.status)
      × (res.body ≡ r.body)

  -- There is no worker for the path and the version, or it has failed.
  abbrev pub IsNotAnswered : BlueboatIpcReq Req → Metadata → Type 0
  IsNotAnswered req md =
      ((e : Bytes) × (w.get_worker (record { path = md.path; version = md.version }) md ≡ err e))
      ⊎ ((worker : w.Worker) × (e : Bytes) × (w.get_worker
              (record { path = md.path; version = md.version }) md
            ≡ ok worker)
          × (w.invoke worker req ≡ err e))

  abbrev pub IsFailure : BlueboatIpcReq Req → Metadata → HttpResponse → Type 0
  IsFailure req md res =
      IsNotAnswered req md × (res.status ≡ 500) × (res.body ≡ codes "invoke error")

  -- An answer to the request with an id, whose body is read with the id in the headers.
  abbrev pub IsAnswer : Incoming w → Headers → Bytes → Metadata → HttpResponse → Type 0
  IsAnswer i hs id md res =
      (v : Req) × (i.read_body (insert hdr_req_request_id (id ∷ []) hs) ≡ ok v)
      × (IsWorkers i (record { v = v; id = id }) md res
          ⊎ IsFailure (record { v = v; id = id }) md res)
      × (lookup hdr_res_request_id res.headers ≡ some (id ∷ []))
